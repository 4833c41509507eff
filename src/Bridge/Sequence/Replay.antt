-- ===== src/Bridge/Sequence/Replay.antt =====
-- What the guard says of a message that comes again, and of a run of messages.
use Prim.Native.String
use mathlib.Core.Path.{subst}
use neuman.Prelude.{
  ◌+◌, ◌%◌, ◌^◌, ◌<◌, ◌≡◌, refl, ap, ◌∙◌, String, Bool, false, ◌||◌, Option, some, none, List, [],
  ◌∷◌, ◌++◌, Bytes, bytes_eq, ltb, ◌==◌, if◌then◌else◌, str_eq, str_eq_iff, arith, inl, inr, ok,
  err, reject_if-then-eq-ok,
}
use neuman.Bridge.{replay_detected}
use neuman.Bridge.Sequence.{
  Envelope, SequenceDecision, fresh, duplicate, SequenceGuard, lookup, remove, expired, drop_oldest,
  expire, advance, decide, check,
}
use neuman.Bridge.Sequence.Window.{IsWindow, has, has-keys, check-eq-ok}

lookup-append :
    (id : String) (d : Bytes) (seen : List (String × Bytes))
    → lookup id seen ≡ none
    → lookup id (seen ++ ((id, d) ∷ [])) ≡ some d
unfolding lookup
lookup-append id d [] h = ground (arith, (str_eq_iff id id).1 refl)
lookup-append id d (x ∷ seen) h = ground (arith, lookup-append id d seen)

lookup-remove :
    (id other : String) (seen : List (String × Bytes))
    → str_eq other id ≡ false
    → lookup id (remove other seen) ≡ lookup id seen
unfolding lookup remove
lookup-remove id other [] h = refl
lookup-remove id other (x ∷ seen) h = ground (
  arith,
  lookup-remove id other seen,
  str_eq_iff x.0 other,
  str_eq_iff x.0 id,
  str_eq_iff other id,
)

-- The identifier that expires is not the one that was pushed last.
expired-ne-last :
    (id : String) (order : List String) {first : String}
    → has id order ≡ false
    → expired (order ++ (id ∷ [])) ≡ some first
    → str_eq first id ≡ false
unfolding expired
expired-ne-last id [] h e = cc
expired-ne-last id (x ∷ order) {first} h e = ground arith

lookup-drop_oldest :
    (id : String) (g : SequenceGuard) (o : Option String)
    → ((first : String) → o ≡ some first → str_eq first id ≡ false)
    → (lookup id (drop_oldest g o).seen ≡ lookup id g.seen)
      × ((drop_oldest g o).expected ≡ g.expected)
unfolding drop_oldest
lookup-drop_oldest id g none h = (refl, refl)
lookup-drop_oldest id g (some first) h = (lookup-remove id first g.seen (h first refl), refl)

-- After a new message the guard knows it, and expects the next number.
after_fresh :
    (id : String) (d : Bytes) (g : SequenceGuard)
    → IsWindow g
    → lookup id g.seen ≡ none
    → (lookup id (expire (advance g id d)).seen ≡ some d)
      × ((expire (advance g id d)).expected ≡ (g.expected + 1) % 2 ^ 64)
unfolding expire advance
after_fresh id d g w h =
    let absent : has id g.order ≡ false =
      subst (λ ks. has id ks ≡ false) w.same (has-keys id g.seen h) in
    let kept =
      lookup-drop_oldest id (advance g id d) (expired (g.order ++ (id ∷ [])))
        (λ first e. expired-ne-last id g.order absent e) in
    (kept.0 ∙ lookup-append id d g.seen h, kept.1)

abbrev bad_id : Envelope → Bool
bad_id e = ltb 128 (String.len e.message_id) || String.len e.message_id == 0

module _ (blake3 : Bytes → Bytes) where
  check-bad_id :
      (g : SequenceGuard) (e : Envelope) (raw : Bytes) {out : SequenceGuard × SequenceDecision}
      → check blake3 g e raw ≡ ok out
      → bad_id e ≡ false
  unfolding check
  check-bad_id g e raw h = (reject_if-then-eq-ok (bad_id e) replay_detected _ h).0

  -- What `check` says of a known identifier with an earlier number
  check-known :
      (g : SequenceGuard) (e : Envelope) (raw d : Bytes)
      → bad_id e ≡ false
      → lookup e.message_id g.seen ≡ some d
      → e.sequence < g.expected
      → check blake3 g e raw
        ≡ (if bytes_eq d (blake3 raw) then ok (g, duplicate) else err replay_detected)
  unfolding check decide
  check-known g e raw d good l lt = rw good (rw l (ground arith))

  -- Once a message is accepted as new, the same identifier and number again are a duplicate if the
  -- bytes have the same BLAKE3 hash, and a replay if not, and the guard stays as it is. The guard
  -- is a window and its number is not the last of a u64.
  pub check_again :
      (g g' : SequenceGuard) (e : Envelope) (raw raw' : Bytes)
      → IsWindow g
      → g.expected + 1 < 2 ^ 64
      → check blake3 g e raw ≡ ok (g', fresh)
      → check blake3 g' e raw'
        ≡ (if bytes_eq (blake3 raw) (blake3 raw') then ok (g', duplicate) else err replay_detected)
  check_again g g' e raw raw' w small h = elim (check-eq-ok blake3 g g' e raw fresh h) [
    | inl (_, f) ↦
        let next = after_fresh e.message_id (blake3 raw) g w f.unseen in
        check-known g' e raw' (blake3 raw) (check-bad_id g e raw h)
          (ap (λ (k : SequenceGuard). lookup e.message_id k.seen) f.result ∙ next.0)
          (omega (arith, f.number, ap (λ (k : SequenceGuard). k.expected) f.result, next.1))
    | inr (other, _) ↦ cc
  ]
