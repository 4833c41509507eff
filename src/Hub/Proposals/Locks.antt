-- ===== src/Hub/Proposals/Locks.antt =====
-- The leases that an acceptance of hub.rs asks for and releases.
use neuman.Prelude.{
  not-eq-false, ℕ, ◌≡◌, refl, String, true, false, not, List, [], ◌∷◌, All, any, update_where, ok,
  reject_if-then-eq-ok, arith, Bool-cases, inl, inr,
}
use neuman.Hub.Records.{ArtProposal, Lease}
use neuman.Hub.Database.{Call}
use neuman.Hub.Leases.{is_open, is_active}
use neuman.Hub.Leases.Exclusive.{Calms, IsExclusive, IsExclusive-update}
use neuman.Hub.Proposals.Accept.{is_author_lease, check_leases, is_spent, spent, release_all}

-- The loop over the resources found a lease of the author on each.
pub check_leases-All :
    (now : ℕ) (project_id : String) (p : ArtProposal) (leases : List Lease) (rs : List String)
    → check_leases now project_id p leases rs ≡ ok tt
    → All (λ r. any (is_author_lease now project_id p r) leases ≡ true) rs
unfolding check_leases
check_leases-All now project_id p leases [] h = tt
check_leases-All now project_id p leases (r ∷ rs) h =
    let (found, h1) =
      reject_if-then-eq-ok (not (any (is_author_lease now project_id p r) leases)) _ _ h in
    (not-eq-false _ found, check_leases-All now project_id p leases rs h1)

module _ (call : Call) (project_id : String) (p : ArtProposal) (id : String) where
  is_spent-spent : (r : String) (l : Lease) → is_spent project_id p r (spent call id l) ≡ false
  unfolding is_spent spent is_open
  is_spent-spent r l = ground arith

  any-is_spent-update :
      (r s : String) (table : List Lease)
      → any (is_spent project_id p r) table ≡ false
      → any (is_spent project_id p r) (update_where (is_spent project_id p s) (spent call id) table)
        ≡ false
  any-is_spent-update r s [] h = refl
  any-is_spent-update r s (l ∷ table) h =
      let rest = any-is_spent-update r s table (ground (arith, h)) in
      elim (Bool-cases (is_spent project_id p s l)) [
        | inl hit ↦ rw hit (rw (is_spent-spent r l) rest)
        | inr miss ↦ rw miss (ground (arith, h, rest))
      ]

  any-is_spent-own :
      (r : String) (table : List Lease)
      → any (is_spent project_id p r) (update_where (is_spent project_id p r) (spent call id) table)
        ≡ false
  any-is_spent-own r [] = refl
  any-is_spent-own r (l ∷ table) = elim (Bool-cases (is_spent project_id p r l)) [
    | inl hit ↦ rw hit (rw (is_spent-spent r l) (any-is_spent-own r table))
    | inr miss ↦ rw miss (rw miss (any-is_spent-own r table))
  ]

  any-is_spent-release_all :
      (r : String) (rs : List String) (table : List Lease)
      → any (is_spent project_id p r) table ≡ false
      → any (is_spent project_id p r) (release_all call project_id p id rs table) ≡ false
  unfolding release_all
  any-is_spent-release_all r [] table h = h
  any-is_spent-release_all r (s ∷ rs) table h =
      any-is_spent-release_all r rs (update_where (is_spent project_id p s) (spent call id) table)
        (any-is_spent-update r s table h)

  -- No lease of the author on one of the resources stays open.
  pub release_all-All :
      (rs : List String) (table : List Lease)
      → All
          (λ r. any (is_spent project_id p r) (release_all call project_id p id rs table) ≡ false)
          rs
  unfolding release_all
  release_all-All [] table = tt
  release_all-All (r ∷ rs) table =
      let next = update_where (is_spent project_id p r) (spent call id) table in
      (any-is_spent-release_all r rs next (any-is_spent-own r table), release_all-All rs next)

  spent-Calms : (t : ℕ) (l : Lease) → Calms t (spent call id) l
  unfolding spent is_active is_open
  spent-Calms t l = record { project = refl; channel = refl; resource = refl; active = λ h. cc }

  -- Releasing them keeps the exclusion.
  pub release_all-IsExclusive :
      (t : ℕ) (rs : List String) (table : List Lease)
      → IsExclusive t table
      → IsExclusive t (release_all call project_id p id rs table)
  unfolding release_all
  release_all-IsExclusive t [] table h = h
  release_all-IsExclusive t (r ∷ rs) table h =
      release_all-IsExclusive t rs (update_where (is_spent project_id p r) (spent call id) table) (
        IsExclusive-update t (is_spent project_id p r) (spent call id) (λ l _. spent-Calms t l)
          table h)
