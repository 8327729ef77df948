-- ===== src/Stream/Connection/Pending.antt =====
-- What a viewer still is to be sent, and how the handlers of src/GUI/StreamConnection.cpp change it.
use mathlib.Core.List.{map-append}
use sec_mon.Prelude.{
  ◌≡◌, refl, ap, sym, ◌∙◌, inl, inr, ◌⊎◌, true, false, List, [], ◌∷◌, ◌++◌, append_assoc, arith,
  List-cases,
}
use sec_mon.Prelude.Text.{Bytes}
use sec_mon.Stream.Connection.{
  Buffer, FrameToSend, StreamConnection, frame_message, send_frame, add_to_outbox, handle_write,
}
use sec_mon.Stream.Connection.Runs.{Session, buffers_of, expected}

-- What the viewer still is to be sent: nothing is under way and all of it is posted, or one write is
-- under way and the rest waits in the outbox, behind its front, and among the posted messages.
abbrev pub Pending : StreamConnection → List (List Buffer) → Type 0
Pending c rest =
    ((c.outbox ≡ []) × (c.writes ≡ []) × (rest ≡ buffers_of c.posted))
    ⊎ ((m : FrameToSend) × (ms : List FrameToSend) × (w : List Buffer) × (c.outbox ≡ m ∷ ms)
        × (c.writes ≡ w ∷ [])
        × (rest ≡ w ∷ (buffers_of ms ++ buffers_of c.posted)))

-- At most one write is under way, and the outbox then holds its message.
abbrev pub Lone : StreamConnection → Type 0
Lone c =
    (c.writes ≡ [])
    ⊎ ((m : FrameToSend) × (ms : List FrameToSend) × (w : List Buffer) × (c.outbox ≡ m ∷ ms)
        × (c.writes ≡ w ∷ []))

pub record Open (s : Session) : Type 0 where
  pub is_open : s.connection.socket_open ≡ true
  pub rest : List (List Buffer)
  pub covers : expected s.signalled ≡ s.sent ++ rest
  pub pending : Pending s.connection rest

pub record Closed (s : Session) : Type 0 where
  pub is_closed : s.connection.socket_open ≡ false
  pub unplugged : s.connection.connected ≡ false
  pub rest : List (List Buffer)
  pub covers : expected s.signalled ≡ s.sent ++ rest
  pub lone : Lone s.connection

-- The handlers on an outbox that is known.
pub add_to_outbox_empty :
    (m : FrameToSend) (c : StreamConnection)
    → c.outbox ≡ []
    → add_to_outbox m c ≡ record c { outbox = m ∷ []; writes = c.writes ++ m.buffers ∷ [] }
unfolding add_to_outbox
add_to_outbox_empty m c e = ground arith

pub add_to_outbox_busy :
    (m : FrameToSend) (c : StreamConnection) (k : FrameToSend) (ks : List FrameToSend)
    → c.outbox ≡ k ∷ ks
    → add_to_outbox m c ≡ record c { outbox = k ∷ (ks ++ m ∷ []) }
unfolding add_to_outbox
add_to_outbox_busy m c k [] e = ground arith
add_to_outbox_busy m c k (j ∷ ks) e = ground arith

pub handle_write_last :
    (c : StreamConnection) (k : FrameToSend)
    → c.outbox ≡ k ∷ []
    → handle_write false c ≡ record c { outbox = [] }
unfolding handle_write
handle_write_last c k e = ground arith

pub handle_write_next :
    (c : StreamConnection) (k j : FrameToSend) (ks : List FrameToSend)
    → c.outbox ≡ k ∷ j ∷ ks
    → handle_write false c ≡ record c { outbox = j ∷ ks; writes = c.writes ++ j.buffers ∷ [] }
unfolding handle_write
handle_write_next c k j ks e = ground arith

pub signal-Pending :
    (c : StreamConnection) (image : Bytes) (rest : List (List Buffer))
    → Pending c rest
    → Pending (send_frame image c) (rest ++ (frame_message image).buffers ∷ [])
unfolding send_frame
signal-Pending c image rest (inl (a, b, e)) = inl (
  a,
  b,
  ap (λ r. r ++ (frame_message image).buffers ∷ []) e
      ∙ sym (map-append _ c.posted (frame_message image ∷ [])),
)
signal-Pending c image rest (inr (m, ms, w, a, b, e)) = inr (
  m,
  ms,
  w,
  a,
  b,
  ap (λ r. r ++ (frame_message image).buffers ∷ []) e
      ∙ ap (◌∷◌ w) (
          append_assoc (buffers_of ms) (buffers_of c.posted) ((frame_message image).buffers ∷ [])
          ∙ ap (◌++◌ (buffers_of ms)) (sym (map-append _ c.posted (frame_message image ∷ [])))),
)

pub run_posted-Pending :
    (c : StreamConnection) (m : FrameToSend) (ms : List FrameToSend) (rest : List (List Buffer))
    → c.posted ≡ m ∷ ms
    → Pending c rest
    → Pending (add_to_outbox m (record c { posted = ms })) rest
run_posted-Pending c m ms rest p (inl (a, b, e)) =
    rw (add_to_outbox_empty m (record c { posted = ms }) a)
      (inr (m, [], m.buffers, refl, ap (λ ws. ws ++ m.buffers ∷ []) b, e ∙ ap buffers_of p))
run_posted-Pending c m ms rest p (inr (k, ks, w, a, b, e)) =
    rw (add_to_outbox_busy m (record c { posted = ms }) k ks a) (
      inr (
        k,
        ks ++ m ∷ [],
        w,
        refl,
        b,
        e
            ∙ ap (◌∷◌ w) (
                ap (λ q. buffers_of ks ++ buffers_of q) p
                ∙ sym (
                    ap (λ l. l ++ buffers_of ms) (map-append _ ks (m ∷ []))
                    ∙ append_assoc (buffers_of ks) (m.buffers ∷ []) (buffers_of ms))),
      ))

-- The write under way is the next thing expected, and the handler leaves the rest pending.
pub write_done-Pending :
    (c : StreamConnection) (w : List Buffer) (ws rest : List (List Buffer))
    → c.writes ≡ w ∷ ws
    → Pending c rest
    → (later : List (List Buffer)) × (rest ≡ w ∷ later)
      × Pending (handle_write false (record c { writes = ws })) later
write_done-Pending c w ws rest f (inl (a, b, e)) = absurd cc
write_done-Pending c w ws rest f (inr (k, [], v, a, b, e)) = (
  buffers_of c.posted,
  ground arith,
  rw (handle_write_last (record c { writes = ws }) k a) (inl (refl, ground arith, refl)),
)
write_done-Pending c w ws rest f (inr (k, j ∷ ks, v, a, b, e)) = (
  j.buffers ∷ (buffers_of ks ++ buffers_of c.posted),
  ground arith,
  rw (handle_write_next (record c { writes = ws }) k j ks a)
      (inr (j, ks, j.buffers, refl, ground arith, refl)),
)

pub Pending-Lone : (c : StreamConnection) (rest : List (List Buffer)) → Pending c rest → Lone c
Pending-Lone c rest (inl (a, b, e)) = inl b
Pending-Lone c rest (inr (k, ks, w, a, b, e)) = inr (k, ks, w, a, b)

pub run_posted-Lone :
    (c : StreamConnection) (m : FrameToSend) (ms : List FrameToSend)
    → Lone c
    → Lone (add_to_outbox m (record c { posted = ms }))
run_posted-Lone c m ms (inr (k, ks, w, a, b)) =
    rw (add_to_outbox_busy m (record c { posted = ms }) k ks a) (inr (k, ks ++ m ∷ [], w, refl, b))
run_posted-Lone c m ms (inl b) = elim (List-cases c.outbox) [
  | inl a ↦
      rw (add_to_outbox_empty m (record c { posted = ms }) a)
        (inr (m, [], m.buffers, refl, ap (λ ws. ws ++ m.buffers ∷ []) b))
  | inr (k, ks, a) ↦ rw (add_to_outbox_busy m (record c { posted = ms }) k ks a) (inl b)
]

pub add_to_outbox_flags :
    (m : FrameToSend) (c : StreamConnection)
    → ((add_to_outbox m c).socket_open ≡ c.socket_open)
      × ((add_to_outbox m c).connected ≡ c.connected)
add_to_outbox_flags m c = elim (List-cases c.outbox) [
  | inl a ↦ rw (add_to_outbox_empty m c a) (refl, refl)
  | inr (k, ks, a) ↦ rw (add_to_outbox_busy m c k ks a) (refl, refl)
]

pub handle_write_open : (c : StreamConnection) → (handle_write false c).socket_open ≡ c.socket_open
handle_write_open c = elim (List-cases c.outbox) [
  | inl a ↦ unfold handle_write in ground arith
  | inr (k, ks, a) ↦ unfold handle_write in ground arith
]

pub failed-Closed :
    (s : Session) (w : List Buffer) (ws rest : List (List Buffer))
    → s.connection.writes ≡ w ∷ ws
    → expected s.signalled ≡ s.sent ++ rest
    → Lone s.connection
    → Closed (record s { connection = handle_write true (record (s.connection) { writes = ws }) })
unfolding handle_write
failed-Closed s w ws rest e c l = record {
  is_closed = refl;
  unplugged = refl;
  rest = rest;
  covers = c;
  lone = inl (ground arith);
}
