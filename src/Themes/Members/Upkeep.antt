-- ===== src/Themes/Members/Upkeep.antt =====
-- Adding and removing members by the artwork's identity.
use mathlib.Core.List.Permᴰ
use frame_tv_art_manager.Prelude.{
  Permᴰ, ℕ, ap, ◌∙◌, ◌-◌, length-append, ◌++◌, ◌&&◌, ◌<◌, suc, leb, is_empty, leb→le, ◌+◌, ◌≤◌,
  Text, ◌=ₜ◌, Text-discrete, Bool, true, false, List, [], ◌∷◌, length, Option, none, some,
  delete_func, contains_func, All, ◌≡◌, refl, arith, inl, inr, Bool-cases, Option-cases, if_cases,
  holds_of,
}
use frame_tv_art_manager.Themes.Types.{Member, Themed, Identity}
use frame_tv_art_manager.Themes.Members.{
  max_members, add_merged, add_member, matches, same_artwork, merge, merge_member, remove_member,
  identity_of_member,
}

same : (t : Text) → (t =ₜ t) ≡ true
same t = holds_of (Text-discrete t t) refl

-- Each element stays or goes: `gone` has those that pass the test, `kept` those that fail it.
pub record IsSplit {ℓ} {A : Type ℓ} (p : A → Bool) (xs kept : List A) : Type ℓ where
  pub gone : List A
  pub whole : Permᴰ (gone ++ kept) xs
  pub matching : All (λ x. p x ≡ true) gone
  pub others : All (λ x. p x ≡ false) kept
  pub counted : length gone + length kept ≡ length xs

delete_func-IsSplit {ℓ} :
    {A : Type ℓ} (p : A → Bool) (xs : List A) → IsSplit p xs (delete_func p xs)
unfolding delete_func
delete_func-IsSplit p [] = record {
  gone = [];
  whole = Permᴰ.nil;
  matching = tt;
  others = tt;
  counted = refl;
}
delete_func-IsSplit p (x ∷ xs) =
    let k = delete_func-IsSplit p xs in
    if_cases (IsSplit p (x ∷ xs)) (p x) (delete_func p xs) (x ∷ delete_func p xs)
      (λ e. record {
        gone = x ∷ k.gone;
        whole = Permᴰ.cons refl k.whole;
        matching = (e, k.matching);
        others = k.others;
        counted = omega (arith, k.counted);
      })
      (λ e. record {
        gone = k.gone;
        whole = Permᴰ.trans (Permᴰ.middle x k.gone (delete_func p xs)) (Permᴰ.cons refl k.whole);
        matching = k.matching;
        others = (e, k.others);
        counted = omega (arith, k.counted);
      })

-- A removal: the members that identify the artwork go, all others stay, nothing else of the
-- collection changes, and the number of those that went is reported.
pub record IsRemoved (equal_fold : Text → Text → Bool) (c : Themed) (a : Identity) (r : Themed × ℕ)
    : Type 0 where
  pub split : IsSplit (λ m. matches equal_fold m a) c.members r.0.members
  pub rest : record c { members = [] } ≡ record r.0 { members = [] }
  pub reported : r.1 ≡ length split.gone

-- After a removal exactly the members that identify the artwork are gone, every other member is there
-- still, the rest of the collection is as it was, and the number reported is the number of members
-- that went.
pub remove_member_lem :
    (equal_fold : Text → Text → Bool) (c : Themed) (a : Identity)
    → IsRemoved equal_fold c a (remove_member equal_fold c a)
unfolding remove_member
remove_member_lem equal_fold c a =
    let k = delete_func-IsSplit (λ m. matches equal_fold m a) c.members in
    record { split = k; rest = refl; reported = omega (arith, k.counted) }

-- The first check of `Member.validate`.
abbrev pub IsIdentified : Member → Type 0
IsIdentified m = (is_empty m.key && is_empty m.origin && is_empty m.digest) ≡ false

module _ (equal_fold : Text → Text → Bool) where
  -- A member identifies the artwork of another.
  abbrev pub Found : Member → List Member → Type 0
  Found m members =
      contains_func (λ x. matches equal_fold x (identity_of_member equal_fold m)) members ≡ true

  -- `merge_member` fails only where no member is the same artwork, and otherwise keeps the number of
  -- members and makes the artwork found.
  abbrev pub Merged : Member → List Member → Option (List Member) → Type 0
  Merged m members none = contains_func (λ x. same_artwork equal_fold x m) members ≡ false
  Merged m members (some merged) = (length merged ≡ length members) × Found m merged

  -- What a collection is after an addition.
  abbrev pub IsAdded : Themed → Member → Option (Themed × Bool) → Type 0
  IsAdded c m none =
      (max_members ≤ length c.members)
      × (contains_func (λ x. same_artwork equal_fold x m) c.members ≡ false)
  IsAdded c m (some (r, true)) =
      Found m r.members
      × (length r.members ≡ suc (length c.members))
      × (length c.members < max_members)
  IsAdded c m (some (r, false)) = Found m r.members × (length r.members ≡ length c.members)

module _ (equal_fold : Text → Text → Bool) (reflexive : (t : Text) → equal_fold t t ≡ true) where
  merge-matches :
      (existing m : Member)
      → same_artwork equal_fold existing m ≡ true
      → matches equal_fold (merge equal_fold existing m) (identity_of_member equal_fold m) ≡ true
  unfolding same_artwork matches merge
  merge-matches existing m h = ground (arith, reflexive m.key, same m.origin, same m.digest)

  merge_member-Merged :
      (m : Member) (members : List Member)
      → Merged equal_fold m members (merge_member equal_fold m members)
  unfolding merge_member contains_func
  merge_member-Merged m [] = refl
  merge_member-Merged m (x ∷ members) = elim (Bool-cases (same_artwork equal_fold x m)) [
    | inl e ↦ rw e (refl, ground (arith, merge-matches x m e))
    | inr e ↦ elim (Option-cases (merge_member equal_fold m members)) [
      | inl n ↦ rw (e, n) (ground (arith, merge_member-Merged m members))
      | inr (merged, n) ↦ rw (e, n) (ground (arith, merge_member-Merged m members))
    ]
  ]

  Found-append :
      (m : Member) (members : List Member)
      → Found equal_fold m (m ∷ [])
      → Found equal_fold m (members ++ m ∷ [])
  unfolding contains_func
  Found-append m [] h = h
  Found-append m (x ∷ members) h = ground (arith, Found-append m members h)

  Found-self : (m : Member) → IsIdentified m → Found equal_fold m (m ∷ [])
  unfolding contains_func matches
  Found-self m h = ground (arith, reflexive m.key, same m.origin, same m.digest)

  added :
      (c : Themed) (m : Member) (merged : Option (List Member))
      → IsIdentified m
      → Merged equal_fold m c.members merged
      → IsAdded equal_fold c m (add_merged equal_fold c m merged)
  unfolding add_merged
  added c m (some members) i h = (h.1, h.0)
  added c m none i h =
      if_cases (IsAdded equal_fold c m) (leb max_members (length c.members)) none
        (some (record c { members = c.members ++ m ∷ [] }, true))
        (λ e. (leb→le max_members (length c.members) e, h))
        (λ e. (
          Found-append m c.members (Found-self m i),
          omega (arith, length-append c.members (m ∷ [])),
          ground arith,
        ))

found :
    (equal_fold : Text → Text → Bool) (reflexive : (t : Text) → equal_fold t t ≡ true) (m : Member)
    → IsIdentified m
    → matches equal_fold m (identity_of_member equal_fold m) ≡ true
unfolding matches
found equal_fold reflexive m h = ground (arith, reflexive m.key, same m.origin, same m.digest)

-- Adding a member that has an identity, where folding a key is reflexive: the collection then has a
-- member that identifies the artwork, one more than before if it is new and as many as before if it
-- was merged; and it fails only on a full collection that has no member for the artwork.
pub add_member-IsAdded :
    (equal_fold : Text → Text → Bool) (reflexive : (t : Text) → equal_fold t t ≡ true) (c : Themed)
    (m : Member)
    → IsIdentified m
    → IsAdded equal_fold c m (add_member equal_fold c m)
unfolding add_member
add_member-IsAdded equal_fold reflexive c m i =
    added equal_fold reflexive c m (merge_member equal_fold m c.members) i
      (merge_member-Merged equal_fold reflexive m c.members)

delete_func-none {ℓ} :
    {A : Type ℓ} (p : A → Bool) (xs : List A) (x : A)
    → contains_func p xs ≡ false
    → p x ≡ true
    → delete_func p (xs ++ x ∷ []) ≡ xs
unfolding delete_func contains_func
delete_func-none p [] x n e = rw e refl
delete_func-none p (y ∷ xs) x n e = ground (arith, delete_func-none p xs x)

appended :
    (equal_fold : Text → Text → Bool) (c : Themed) (m : Member) (merged : Option (List Member))
    (r : Themed)
    → add_merged equal_fold c m merged ≡ some (r, true)
    → r ≡ record c { members = c.members ++ m ∷ [] }
unfolding add_merged
appended equal_fold c m (some members) r e = absurd (ground arith)
appended equal_fold c m none r e = elim (Bool-cases (leb max_members (length c.members))) [
  | inl full ↦ absurd (ground arith)
  | inr room ↦ ground arith
]

-- Adding a member that has an identity, where folding a key is reflexive, as a new one to a collection
-- in which nothing identifies its artwork, and then removing that artwork gives back the collection,
-- and reports that one member went.
pub remove_member-add_member :
    (equal_fold : Text → Text → Bool) (reflexive : (t : Text) → equal_fold t t ≡ true) (c : Themed)
    (m : Member) (r : Themed)
    → IsIdentified m
    → contains_func (λ x. matches equal_fold x (identity_of_member equal_fold m)) c.members ≡ false
    → add_member equal_fold c m ≡ some (r, true)
    → remove_member equal_fold r (identity_of_member equal_fold m) ≡ (c, 1)
unfolding add_member remove_member
remove_member-add_member equal_fold reflexive c m r i n e =
    let a = identity_of_member equal_fold m in
    let p = λ (x : Member). matches equal_fold x a in
    ap (λ (q : Themed). remove_member equal_fold q a)
      (appended equal_fold c m (merge_member equal_fold m c.members) r e)
    ∙ ap
        (λ (kept : List Member).
          (record c { members = kept }, length (c.members ++ m ∷ []) - length kept))
        (delete_func-none p c.members m n (found equal_fold reflexive m i))
    ∙ ap (λ (k : ℕ). (c, k)) (omega (arith, length-append c.members (m ∷ [])))
