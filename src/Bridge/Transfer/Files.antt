-- ===== src/Bridge/Transfer/Files.antt =====
-- The files of a transfer manager: reads after writes, and the paths of partial and verified files.
use neuman.Prelude.{
  ℕ, ◌≡◌, ◌≢◌, refl, sym, ap, ◌∙◌, true, false, some, [], ◌∷◌, ◌++◌, Bytes, codes, bytes_eq,
  bytes_eq_iff, bytes_eq_refl, length, length-append, length-append_split, arith, Bool-cases, inl,
  inr,
}
use neuman.Bridge.Transfer.{
  TransferManager, Disk, read_file, remove_file, put_file, partial_path, verified_path,
}

pub read-remove :
    (p q : Bytes) (disk : Disk)
    → bytes_eq p q ≡ false
    → read_file q (remove_file p disk) ≡ read_file q disk
unfolding read_file remove_file
read-remove p q [] ne = refl
read-remove p q (f ∷ disk) ne = elim (Bool-cases (bytes_eq f.0 p)) [
  | inl hit ↦
      let same = (bytes_eq_iff f.0 p).0 hit in
      let miss : bytes_eq f.0 q ≡ false = ap (λ k. bytes_eq k q) same ∙ ne in
      ground (arith, read-remove p q disk ne)
  | inr other ↦ ground (arith, read-remove p q disk ne)
]

pub read-put_other :
    (p q content : Bytes) (disk : Disk)
    → bytes_eq p q ≡ false
    → read_file q (put_file p content disk) ≡ read_file q disk
unfolding read_file put_file
read-put_other p q content disk ne = rw ne (read-remove p q disk ne)

pub read-put :
    (p content : Bytes) (disk : Disk) → read_file p (put_file p content disk) ≡ some content
unfolding read_file put_file
read-put p content disk = rw (bytes_eq_refl p) refl

pub ne-bytes_eq : (p q : Bytes) → p ≢ q → bytes_eq p q ≡ false
ne-bytes_eq p q ne = elim (Bool-cases (bytes_eq p q)) [
  | inl e ↦ absurd (ne ((bytes_eq_iff p q).0 e))
  | inr e ↦ e
]

pub bytes_eq_swap : (p q : Bytes) → bytes_eq p q ≡ false → bytes_eq q p ≡ false
bytes_eq_swap p q e =
    ne-bytes_eq q p (λ same. true-ne-false (sym ((bytes_eq_iff p q).1 (sym same)) ∙ e))
  where
    true-ne-false : true ≡ false → ⊥
    true-ne-false c = cc

-- The last byte of a text
final : Bytes → ℕ
final [] = 0
final (x ∷ []) = x
final (x ∷ y ∷ ys) = final (y ∷ ys)

final-append : (xs : Bytes) (y : ℕ) (ys : Bytes) → final (xs ++ (y ∷ ys)) ≡ final (y ∷ ys)
unfolding final
final-append [] y ys = refl
final-append (x ∷ []) y ys = refl
final-append (x ∷ z ∷ zs) y ys = final-append (z ∷ zs) y ys

final-path :
    (s id : Bytes) (y : ℕ) (ys : Bytes) → final (s ++ (b'-' ∷ (id ++ (y ∷ ys)))) ≡ final (y ∷ ys)
unfolding final
final-path s [] y ys = final-append s b'-' (y ∷ ys)
final-path s (x ∷ id) y ys = final-append s b'-' (x ∷ (id ++ (y ∷ ys))) ∙ final-append (x ∷ id) y ys

-- No partial file has the path of a verified one.
pub partial-ne-verified :
    (m n : TransferManager) (a b : Bytes) → bytes_eq (partial_path m a) (verified_path n b) ≡ false
unfolding final
partial-ne-verified m n a b = ne-bytes_eq _ _ (λ e.
    let clash : 108 ≡ 100 =
      sym (final-path m.session_id a b'.' (codes "partial"))
      ∙ ap final e
      ∙ final-path n.session_id b b'.' (codes "verified") in
    omega (arith, clash))

same_id : (a b s : Bytes) → a ++ s ≡ b ++ s → a ≡ b
same_id a b s e =
    (length-append_split a b (omega (arith, ap length e, length-append a s, length-append b s)) e).0

tail_of : {x y : ℕ} {xs ys : Bytes} → x ∷ xs ≡ y ∷ ys → xs ≡ ys
tail_of e = cc

-- Different transfers have different paths.
pub verified-ne :
    (m : TransferManager) (a b : Bytes)
    → bytes_eq a b ≡ false
    → bytes_eq (verified_path m a) (verified_path m b) ≡ false
verified-ne m a b ne = ne-bytes_eq _ _ (λ e.
    let rest = (length-append_split m.session_id m.session_id refl e).1 in
    let same = same_id a b (codes ".verified") (tail_of rest) in
    true-ne-false (sym ((bytes_eq_iff a b).1 same) ∙ ne))
  where
    true-ne-false : true ≡ false → ⊥
    true-ne-false c = cc
