-- ===== src/WebSocketServer/Connections.antt =====
-- The set of connections against the history of the server (src/GUI/WebSocketServer.cpp).
use sec_mon.Prelude.{
  ℕ, suc, ◌+◌, ◌-◌, ◌≡◌, refl, ap, ◌∙◌, Bool, true, false, ◌==◌, if◌then◌else◌, List, [], ◌∷◌, ◌++◌,
  arith,
}
use sec_mon.WebSocketServer.{
  WebSocketServer, new_server, insert_handle, erase_handle, on_open, on_close, shutdown,
}

-- The calls of the handlers, the last one first.
pub data Event : Type 0 where
  opened : ℕ → Event
  has_closed : ℕ → Event
  shut : Event

-- The server after a history.
unfoldable pub after : List Event → WebSocketServer
unfolding on_open on_close shutdown
after [] = new_server
after (opened h ∷ es) = on_open h (after es)
after (has_closed h ∷ es) = on_close h (after es)
after (shut ∷ es) = shutdown (after es)

-- Whether the connection was opened after it last closed and after the last shutdown.
unfoldable pub is_open : ℕ → List Event → Bool
is_open h [] = false
is_open h (opened k ∷ es) = let rest = is_open h es in if k == h then true else rest
is_open h (has_closed k ∷ es) = let rest = is_open h es in if k == h then false else rest
is_open h (shut ∷ es) = false

-- How often a handle is in a list.
unfoldable pub count : ℕ → List ℕ → ℕ
count h [] = 0
count h (k ∷ ks) = let rest = count h ks in if k == h then suc rest else rest

count-insert :
    (h k : ℕ) (ks : List ℕ)
    → count h (insert_handle k ks)
      ≡ (if k == h then (if count h ks == 0 then 1 else count h ks) else count h ks)
unfolding count insert_handle
count-insert h k [] = ground arith
count-insert h k (j ∷ ks) = ground (arith, count-insert h k ks)

count-erase :
    (h k : ℕ) (ks : List ℕ)
    → count h (erase_handle k ks) ≡ (if k == h then count h ks - 1 else count h ks)
unfolding count erase_handle
count-erase h k [] = ground arith
count-erase h k (j ∷ ks) = ground (arith, count-erase h k ks)

-- After every history, a connection is in the set once if it was opened after it last closed and after
-- the last shutdown, and not at all otherwise.
pub count-after :
    (h : ℕ) (es : List Event) → count h (after es).master_list ≡ (if is_open h es then 1 else 0)
unfolding after is_open on_open on_close shutdown
count-after h [] = unfold count in refl
count-after h (opened k ∷ es) =
    count-insert h k (after es).master_list ∙ ground (arith, count-after h es)
count-after h (has_closed k ∷ es) =
    count-erase h k (after es).master_list ∙ ground (arith, count-after h es)
count-after h (shut ∷ es) = unfold count in refl

count-append : (h : ℕ) (xs ys : List ℕ) → count h (xs ++ ys) ≡ count h xs + count h ys
unfolding count
count-append h [] ys = omega arith
count-append h (x ∷ xs) ys = ground (arith, count-append h xs ys)

-- A shutdown empties the set and closes each connection in it once, and no other.
pub shutdown-closes :
    (h : ℕ) (es : List Event)
    → ((after (shut ∷ es)).master_list ≡ [])
      × (count h (after (shut ∷ es)).closed
          ≡ count h (after es).closed + (if is_open h es then 1 else 0))
unfolding after shutdown
shutdown-closes h es = (
  refl,
  count-append h (after es).closed (after es).master_list
      ∙ ap (λ n. count h (after es).closed + n) (count-after h es),
)
