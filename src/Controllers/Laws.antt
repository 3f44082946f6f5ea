-- ===== src/Controllers/Laws.antt =====
-- Which updates reach the reconcilers of planes and of SQBDeployments.
use elastic_env_operator.Base.{
  ◌≡◌, ◌↔◌, refl, String, true, false, Option, none, some, [], ◌∷◌, Map, nil, made, get?, Entries,
  lookup, is_nil, arith, eq_iff, ◌⊎◌, inl,
}
use elastic_env_operator.Api.Meta.{ObjectMeta}
use elastic_env_operator.Controllers.{
  same_value, agree_at, deep_equal, generation_annotation_update,
}

same_value_iff : (a b : Option String) → (same_value a b ≡ true) ↔ (a ≡ b)
unfolding same_value
same_value_iff none none = ground arith
same_value_iff (some a) (some b) = ground (arith, eq_iff a b)
same_value_iff none (some b) = ground arith
same_value_iff (some a) none = ground arith

agree_at_all :
    (keys a b : Entries String)
    → ((k : String) → lookup k a ≡ lookup k b)
    → agree_at keys a b ≡ true
unfolding agree_at
agree_at_all [] a b h = refl
agree_at_all ((k, v) ∷ keys) a b h =
    ground (arith, (same_value_iff (lookup k a) (lookup k b)).1 (h k), agree_at_all keys a b h)

-- Where the keys agree, a key that they have agrees.
agree_at_sound :
    (keys a b : Entries String) (k : String)
    → agree_at keys a b ≡ true
    → (lookup k keys ≡ none) ⊎ (lookup k a ≡ lookup k b)
unfolding agree_at lookup
agree_at_sound [] a b k h = inl refl
agree_at_sound ((j, v) ∷ keys) a b k h =
    ground
      (arith, eq_iff j k, (same_value_iff (lookup j a) (lookup j b)).0, agree_at_sound keys a b k)

agree_both :
    (a b : Entries String) (k : String)
    → agree_at a a b ≡ true
    → agree_at b a b ≡ true
    → lookup k a ≡ lookup k b
agree_both a b k h h' = ground (arith, agree_at_sound a a b k h, agree_at_sound b a b k h')

-- Two maps are deeply equal exactly when both or none of them is nil, and each key has one value,
-- or none, in both.
pub deep_equal_iff :
    (m n : Map String)
    → (deep_equal m n ≡ true) ↔ ((is_nil m ≡ is_nil n) × ((k : String) → get? m k ≡ get? n k))
unfolding deep_equal
deep_equal_iff nil nil = (λ h. (refl, λ k. refl), λ h. refl)
deep_equal_iff nil (made b) = (λ h. absurd (cc h), λ h. absurd (cc (h.0)))
deep_equal_iff (made a) nil = (λ h. absurd (cc h), λ h. absurd (cc (h.0)))
deep_equal_iff (made a) (made b) = (
  λ h. (refl, λ k. agree_both a b k (ground arith) (ground arith)),
  λ h. ground (arith, agree_at_all a a b (h.1), agree_at_all b a b (h.1)),
)

-- An update is left aside exactly when the generation, the presence of annotations and every
-- annotation are the same before and after it.
pub generation_annotation_update_iff :
    (old new : ObjectMeta)
    → (generation_annotation_update (some old) (some new) ≡ false) ↔ (
        (new.generation ≡ old.generation)
        × (is_nil old.annotations ≡ is_nil new.annotations)
        × ((k : String) → get? old.annotations k ≡ get? new.annotations k))
unfolding generation_annotation_update
generation_annotation_update_iff old new =
    let d = deep_equal_iff old.annotations new.annotations in
    (
      λ h. (ground arith, (d.0 (ground arith)).0, (d.0 (ground arith)).1),
      λ h. ground (arith, d.1 (h.1, h.2)),
    )
