-- ===== src/Dict/Values.antt =====
-- Walks over `values()`, as `next(...)` and the comprehensions make them, against reads by key.
use dayu_water_agent.Prelude.{
  String, ◌≡◌, refl, Bool, true, false, Option, some, none, List, [], ◌∷◌, arith, ◌==◌, eq_iff,
  eq_refl, first_if, keep_if, All, Bool-cases, inl, inr, if◌then◌else◌,
}
use dayu_water_agent.Dict.{Dict, get, values}
use dayu_water_agent.Dict.Laws.{Distinct}

module _ {ℓ} {V : Type ℓ} (p : V → Bool) where
  -- A walk that finds nothing has passed every value that a key reads.
  pub first-none :
      (d : Dict V) (k : String) (v : V)
      → first_if p (values d) ≡ none
      → get d k ≡ some v
      → p v ≡ false
  unfolding first_if get values
  first-none [] k v h e = ground arith
  first-none ((j, w) ∷ d) k v h e = ground (arith, first-none d k v)

  get-cons_ne :
      (j : String) (w v : V) (d : Dict V) (k : String)
      → get d j ≡ none
      → get d k ≡ some v
      → get ((j, w) ∷ d) k ≡ some v
  unfolding get
  get-cons_ne j w v d k n e = ground (arith, eq_iff j k)

  -- A key whose value is the one that the walk found.
  pub first-some :
      (d : Dict V) (v : V)
      → Distinct d
      → first_if p (values d) ≡ some v
      → (k : String) × (get d k ≡ some v) × (p v ≡ true)
  unfolding first_if values
  first-some [] v h e = cc
  first-some ((j, w) ∷ d) v h e = elim (Bool-cases (p w)) [
    | inl y ↦ (j, unfold get in ground (arith, eq_refl j), ground arith)
    | inr n ↦
        let r = first-some d v h.1 (ground arith) in (r.0, get-cons_ne j w v d r.0 h.0 r.1, r.2)
  ]

-- `key` reads from a value the key under which it is kept.
module _ {ℓ} {V : Type ℓ} (key : V → String) where
  abbrev pub find_key : String → List V → Option V
  find_key k xs = first_if (λ v. key v == k) xs

  abbrev pub UniqueKeys : List V → Type ℓ
  UniqueKeys [] = Unit
  UniqueKeys (x ∷ xs) = (find_key (key x) xs ≡ none) × UniqueKeys xs

  abbrev pub Keyed : Dict V → Type ℓ
  Keyed d = (k : String) (v : V) → get d k ≡ some v → key v ≡ k

  -- `Keyed`, entry by entry.
  abbrev EntryKeyed : Dict V → Type 0
  EntryKeyed [] = Unit
  EntryKeyed ((j, w) ∷ d) = (key w ≡ j) × EntryKeyed d

  Keyed-EntryKeyed : (d : Dict V) → Distinct d → Keyed d → EntryKeyed d
  Keyed-EntryKeyed [] u h = tt
  Keyed-EntryKeyed ((j, w) ∷ d) u h = (
    h j w (unfold get in ground (arith, eq_refl j)),
    Keyed-EntryKeyed d u.1 (λ k v e. h k v (get-cons_ne (λ _. true) j w v d k u.0 e)),
  )

  abbrev pub kept : (V → Bool) → Option V → Option V
  kept p none = none
  kept p (some v) = if p v then some v else none

  find_key-entries :
      (p : V → Bool) (d : Dict V) (k : String)
      → Distinct d
      → EntryKeyed d
      → find_key k (keep_if p (values d)) ≡ kept p (get d k)
  unfolding first_if keep_if values get
  find_key-entries p [] k u h = refl
  find_key-entries p ((j, w) ∷ d) k u h =
      ground (arith, find_key-entries p d k u.1 h.1, eq_iff j k, eq_iff (key w) k)

  UniqueKeys-entries :
      (p : V → Bool) (d : Dict V) → Distinct d → EntryKeyed d → UniqueKeys (keep_if p (values d))
  unfolding keep_if values
  UniqueKeys-entries p [] u h = tt
  UniqueKeys-entries p ((j, w) ∷ d) u h =
      ground (arith, UniqueKeys-entries p d u.1 h.1, find_key-entries p d (key w) u.1 h.1, h.0, u.0)

  -- Reading a filtered walk by key is reading the dictionary and testing what it holds.
  pub find_key-keep_if :
      (p : V → Bool) (d : Dict V) (k : String)
      → Distinct d
      → Keyed d
      → find_key k (keep_if p (values d)) ≡ kept p (get d k)
  find_key-keep_if p d k u h = find_key-entries p d k u (Keyed-EntryKeyed d u h)

  pub UniqueKeys-keep_if :
      (p : V → Bool) (d : Dict V) → Distinct d → Keyed d → UniqueKeys (keep_if p (values d))
  UniqueKeys-keep_if p d u h = UniqueKeys-entries p d u (Keyed-EntryKeyed d u h)

  values-cons :
      (j : String) (w : V) (d : Dict V) (xs : List V)
      → get d j ≡ none
      → All (λ v. get d (key v) ≡ some v) xs
      → All (λ v. get ((j, w) ∷ d) (key v) ≡ some v) xs
  values-cons j w d [] n h = tt
  values-cons j w d (x ∷ xs) n h =
      (get-cons_ne (λ _. true) j w x d (key x) n h.0, values-cons j w d xs n h.1)

  values-entries :
      (d : Dict V) → Distinct d → EntryKeyed d → All (λ v. get d (key v) ≡ some v) (values d)
  unfolding values
  values-entries [] u h = tt
  values-entries ((j, w) ∷ d) u h = (
    unfold get in ground (arith, eq_iff j (key w)),
    values-cons j w d (values d) u.0 (values-entries d u.1 h.1),
  )

  -- Every value is the one that its own key reads.
  pub get-values :
      (d : Dict V) → Distinct d → Keyed d → All (λ v. get d (key v) ≡ some v) (values d)
  get-values d u h = values-entries d u (Keyed-EntryKeyed d u h)
