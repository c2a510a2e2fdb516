-- ===== src/Session/Order.antt =====
-- The order in which the queue lets messages out, and what it keeps in mind of its writes.
use http_router.Base.{
  ℕ, suc, ◌<◌, ◌≡◌, refl, sym, ap, ◌∙◌, Bool, false, some, List, [], ◌∷◌, ◌++◌, append-nil,
  append_assoc, arith, length, length-append, drop, leb, ◌==◌, if◌then◌else◌,
}
use http_router.Beast.{Beast}
use http_router.Response.{Message}
use http_router.Session.{
  limit, Queue, is_full, start_front, queue_send, erase_front, queue_on_write,
}

module _ (b : Beast) where
  -- All messages that a queue has let out or will let out: what is on the wire, and the items behind
  -- the one that is being written.
  abbrev pub outgoing : Queue b → List (Message b)
  outgoing q = q.wire ++ drop 1 q.items

  abbrev queue_of : List (Message b) → List (Message b) → ℕ → Queue b
  queue_of items wire writes = record { items = items; wire = wire; writes = writes }

  longer :
      (items : List (Message b)) (x msg : Message b)
      → (length (x ∷ (items ++ (msg ∷ []))) == 1) ≡ false
  longer items x msg = ground (arith, length-append items (msg ∷ []))

  -- What `queue_send` makes of a queue
  pub record IsSent (msg : Message b) (q q' : Queue b) : Type 0 where
    pub order : outgoing q' ≡ outgoing q ++ (msg ∷ [])
    pub more : length q'.items ≡ suc (length q.items)
    pub started : q'.writes ≡ (if length q.items == 0 then suc q.writes else q.writes)

  send_at :
      (items wire : List (Message b)) (writes : ℕ) (msg : Message b)
      → IsSent msg (queue_of items wire writes) (queue_send b msg (queue_of items wire writes))
  unfolding queue_send start_front
  send_at [] wire writes msg = record {
    order = append-nil (wire ++ (msg ∷ [])) ∙ ap (λ w. w ++ (msg ∷ [])) (sym (append-nil wire));
    more = refl;
    started = refl;
  }
  send_at (x ∷ items) wire writes msg = rw (longer items x msg) (record {
    order = sym (append_assoc wire items (msg ∷ []));
    more = omega (arith, length-append items (msg ∷ []));
    started = ground arith;
  })

  pub queue_send-IsSent : (q : Queue b) (msg : Message b) → IsSent msg q (queue_send b msg q)
  queue_send-IsSent q msg = send_at q.items q.wire q.writes msg

  -- What `queue_on_write` makes of one that has items
  pub record IsWritten (q : Queue b) (was_full : Bool) (q' : Queue b) : Type 0 where
    pub order : outgoing q' ≡ outgoing q
    pub full : was_full ≡ leb limit (length q.items)
    pub fewer : suc (length q'.items) ≡ length q.items
    pub started : q'.writes ≡ (if length q'.items == 0 then q.writes else suc q.writes)

  IsWritten-at :
      (items wire : List (Message b)) (writes : ℕ)
      → 0 < length items
      → (was_full : Bool) × (q' : Queue b) × (queue_on_write b (queue_of items wire writes)
          ≡ some (was_full, q'))
        × IsWritten (queue_of items wire writes) was_full q'
  unfolding queue_on_write erase_front start_front is_full
  IsWritten-at [] wire writes h = absurd (omega (arith, h))
  IsWritten-at (x ∷ []) wire writes h =
      (_, _, refl, record { order = refl; full = refl; fewer = refl; started = refl })
  IsWritten-at (x ∷ y ∷ items) wire writes h = (
    _,
    _,
    refl,
    record {
      order = append_assoc wire (y ∷ []) items;
      full = refl;
      fewer = refl;
      started = ground arith;
    },
  )

  -- The assertion in `queue::on_write` holds where there are items. The queue loses its first one
  -- and starts to write the next, it reports whether it was full, and what is let out, and in which
  -- order, stays the same.
  pub queue_on_write-IsWritten :
      (q : Queue b)
      → 0 < length q.items
      → (was_full : Bool) × (q' : Queue b) × (queue_on_write b q ≡ some (was_full, q'))
        × IsWritten q was_full q'
  queue_on_write-IsWritten q h = IsWritten-at q.items q.wire q.writes h
