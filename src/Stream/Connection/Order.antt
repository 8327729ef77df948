-- ===== src/Stream/Connection/Order.antt =====
-- The frames that reach a viewer, in the runs of the handlers of src/GUI/StreamConnection.cpp, in
-- whatever order signals, posted handlers and completed writes come.
use mathlib.Core.List.{map-append}
use sec_mon.Prelude.{
  ◌≡◌, refl, ap, sym, ◌∙◌, inl, inr, ◌⊎◌, true, List, [], ◌∷◌, ◌++◌, append_assoc, append-nil,
}
use sec_mon.Stream.Connection.{
  Buffer, lost_buffers, no_frame, initial_reply, start, frame_message, send_frame,
}
use sec_mon.Stream.Connection.Runs.{
  Session, started, Step, signal, run_posted, write_done, write_failed, Reach, here, next,
  buffers_of, expected,
}
use sec_mon.Stream.Connection.Pending.{
  Pending, Lone, Open, Closed, signal-Pending, run_posted-Pending, write_done-Pending, Pending-Lone,
  run_posted-Lone, add_to_outbox_flags, handle_write_open, failed-Closed,
}

-- A session in which no write has failed, and one after a failure.
abbrev Inv : Session → Type 0
Inv s = Open s ⊎ Closed s

Step-Inv : {s t : Session} → Step s t → Inv s → Inv t
Step-Inv {s} (signal image up) (inl o) = inl (record {
  is_open = unfold send_frame in o.is_open;
  rest = o.rest ++ (frame_message image).buffers ∷ [];
  covers =
      ap (◌∷◌ (lost_buffers initial_reply)) (map-append _ s.signalled (image ∷ []))
      ∙ ap (λ b. b ++ (frame_message image).buffers ∷ []) o.covers
      ∙ append_assoc s.sent o.rest ((frame_message image).buffers ∷ []);
  pending = signal-Pending s.connection image o.rest o.pending;
})
Step-Inv {s} (signal image up) (inr k) = absurd (unplugged_signal s up k)
  where
    unplugged_signal : (s : Session) → s.connection.connected ≡ true → Closed s → ⊥
    unplugged_signal s up k = let e = k.unplugged in cc
Step-Inv {s} (run_posted m ms e) (inl o) = inl (record {
  is_open = (add_to_outbox_flags m (record (s.connection) { posted = ms })).0 ∙ o.is_open;
  rest = o.rest;
  covers = o.covers;
  pending = run_posted-Pending s.connection m ms o.rest e o.pending;
})
Step-Inv {s} (run_posted m ms e) (inr k) = inr (record {
  is_closed = (add_to_outbox_flags m (record (s.connection) { posted = ms })).0 ∙ k.is_closed;
  unplugged = (add_to_outbox_flags m (record (s.connection) { posted = ms })).1 ∙ k.unplugged;
  rest = k.rest;
  covers = k.covers;
  lone = run_posted-Lone s.connection m ms k.lone;
})
Step-Inv {s} (write_done w ws e up) (inl o) =
    let (later, f, p) = write_done-Pending s.connection w ws o.rest e o.pending in
    inl (record {
      is_open = handle_write_open (record (s.connection) { writes = ws }) ∙ o.is_open;
      rest = later;
      covers = o.covers ∙ ap (◌++◌ s.sent) f ∙ sym (append_assoc s.sent (w ∷ []) later);
      pending = p;
    })
Step-Inv {s} (write_done w ws e up) (inr k) = let f = k.is_closed in absurd cc
Step-Inv {s} (write_failed w ws e) (inl o) =
    inr (failed-Closed s w ws o.rest e o.covers (Pending-Lone s.connection o.rest o.pending))
Step-Inv {s} (write_failed w ws e) (inr k) = inr (failed-Closed s w ws k.rest e k.covers k.lone)

started-Open : Open started
unfolding start
started-Open = record {
  is_open = refl;
  rest = lost_buffers initial_reply ∷ [];
  covers = refl;
  pending = inr (no_frame, [], lost_buffers initial_reply, refl, refl, refl);
}

Reach-Inv : {s : Session} → Reach s → Inv s
Reach-Inv here = inl started-Open
Reach-Inv (next r st) = Step-Inv st (Reach-Inv r)

-- In every run, the buffers that have been written are a front part of those of the headers and of the
-- frames of the images signalled, in their order, and at most one write is under way. A frame's buffers
-- point to its fixed text and its image; those of its length and of the header names and values point
-- to objects that are destroyed, so that their bytes are not determined.
pub Reach-expected :
    {s : Session}
    → Reach s
    → ((rest : List (List Buffer)) × (expected s.signalled ≡ s.sent ++ rest)) × Lone s.connection
Reach-expected {s} r = elim (Reach-Inv r) [
  | inl o ↦ ((o.rest, o.covers), Pending-Lone s.connection o.rest o.pending)
  | inr k ↦ ((k.rest, k.covers), k.lone)
]

-- Nothing is lost while no write fails: when no handler is posted and no write is under way any more, the
-- buffers of the headers and of the frames of all images signalled have been written. Among them, those
-- of the lengths and of the header names and values point to objects that are destroyed.
pub Reach-all_sent :
    {s : Session}
    → Reach s
    → s.connection.socket_open ≡ true
    → s.connection.posted ≡ []
    → s.connection.writes ≡ []
    → expected s.signalled ≡ s.sent
Reach-all_sent {s} r up p w = elim (Reach-Inv r) [
  | inl o ↦ finished o o.pending
  | inr k ↦ let f = k.is_closed in absurd cc
]
  where
    finished : (o : Open s) → Pending s.connection o.rest → expected s.signalled ≡ s.sent
    finished o (inl (a, b, e)) =
        o.covers ∙ ap (◌++◌ s.sent) (e ∙ ap buffers_of p) ∙ append-nil s.sent
    finished o (inr (k, ks, v, a, b, e)) = absurd cc
