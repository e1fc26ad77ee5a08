-- ===== src/Sync/Limit.antt =====
-- `limitSnapshot` of internal/sync/collection_limit.go. Of the warning only whether there is one is
-- kept.
use frame_tv_art_manager.Prelude.Order.{text_compare-IsOrder}
use frame_tv_art_manager.Prelude.Hex.{hex_encode, valid_digest}
use frame_tv_art_manager.Prelude.Int.{pos_part, is_positive, ℤ, pos, ◌≤ℤ◌}
use frame_tv_art_manager.Collection.Types.{ChangeKind, ChangeKind-discrete, Item, Change, Snapshot}
use frame_tv_art_manager.Reconcile.Inputs.{by_name, snapshot_valid, items_valid}
use frame_tv_art_manager.Prelude.Sort.{
  length-sort_func, sort_func-IsSorted, take-AllBelow-drop, sort_func-perm, AllBelow, IsSorted,
  insert_sorted, sort_func,
}
use frame_tv_art_manager.Reconcile.Types.{Hashes}
use frame_tv_art_manager.Prelude.Sort.{IsSorted}
use frame_tv_art_manager.Prelude.{
  holds_of, All-take, inr, or_parts, inl, ◌∙◌, take-append-drop, ap, leb, holds, if_cases, sym,
  and_true, Ordering, ◌||◌, ◌=ₜ◌, subst, ◌≢◌, Text-discrete, ◌⊎◌, drop, ◌++◌, and_parts, All, not,
  contains, length, Permᴰ, ◌≡◌, Bool, take, map, if◌then◌else◌, ◌≤◌, List, Text, ℕ, suc, zero, true,
  false, [], ◌∷◌, refl, arith,
}

-- The changes of the artwork that is kept, and of what is missing.
unfoldable pub kept_changes : List Text → List Change → List Change
kept_changes names [] = []
kept_changes names (change ∷ rest) =
    let kept = kept_changes names rest in
    if contains Text-discrete names change.name
      || holds (ChangeKind-discrete change.kind ChangeKind.missing)
    then change ∷ kept
    else kept

abbrev item_names : List Item → List Text
item_names = map (λ i. i.name)

-- The first items by name.
abbrev pub first_items : ℕ → List Item → List Item
first_items count items = take count (sort_func by_name items)

unfoldable pub limited : Hashes → Snapshot → ℕ → Snapshot
unfolding kept_changes
limited h snapshot count =
    let kept = first_items count snapshot.items in
    record {
      generation = h.generation (sort_func by_name kept);
      items = kept;
      changes = kept_changes (item_names kept) snapshot.changes;
      warnings = snapshot.warnings;
      dry_run = snapshot.dry_run;
    }

-- `limitSnapshot`, and whether it warns.
unfoldable pub limit_snapshot : Hashes → Snapshot → ℤ → Snapshot × Bool
unfolding limited
limit_snapshot h snapshot maximum =
    if not (is_positive maximum) || leb (length snapshot.items) (pos_part maximum)
    then (snapshot, false)
    else (limited h snapshot (pos_part maximum), true)

sort-sorted : (items : List Item) → IsSorted by_name items → sort_func by_name items ≡ items
unfolding sort_func insert_sorted
sort-sorted [] s = refl
sort-sorted (item ∷ rest) s =
    ap (insert_sorted by_name item) (sort-sorted rest s.1) ∙ front rest s.0
  where
    front :
        (rest : List Item)
        → All (λ y. by_name item y ≢ Ordering.gt) rest
        → insert_sorted by_name item rest ≡ item ∷ rest
    front [] b = refl
    front (y ∷ ys) b = placed (by_name item y) b.0
      where
        placed :
            (o : Ordering)
            → o ≢ Ordering.gt
            → elim o [ Ordering.gt ↦ y ∷ insert_sorted by_name item ys | _ ↦ item ∷ y ∷ ys ]
              ≡ item ∷ y ∷ ys
        placed Ordering.lt n = refl
        placed Ordering.eq n = refl
        placed Ordering.gt n = absurd (n refl)

take-items_valid :
    (names digests : List Text) (n : ℕ) (items : List Item)
    → items_valid names digests items ≡ true
    → items_valid names digests (take n items) ≡ true
unfolding items_valid
take-items_valid names digests zero items v = refl
take-items_valid names digests (suc n) [] v = refl
take-items_valid names digests (suc n) (item ∷ rest) v =
    let parts =
      and_parts _ (items_valid (item.name ∷ names) (hex_encode item.digest ∷ digests) rest) v in
    and_true _ _ parts.0
      (take-items_valid (item.name ∷ names) (hex_encode item.digest ∷ digests) n rest parts.1)

-- The view that a cycle gets of a collection that holds too much.
pub record IsFirst (snapshot : Snapshot) (count : ℕ) (s : Snapshot) : Type 0 where
  pub rest : List Item
  pub whole : Permᴰ (s.items ++ rest) snapshot.items
  pub below : AllBelow by_name s.items rest
  pub size : length s.items ≡ count

IsSorted-take :
    (n : ℕ) (items : List Item) → IsSorted by_name items → IsSorted by_name (take n items)
IsSorted-take zero items s = tt
IsSorted-take (suc n) [] s = tt
IsSorted-take (suc n) (item ∷ rest) s = (All-take _ n rest s.0, IsSorted-take n rest s.1)

length-take : (n : ℕ) (items : List Item) → n ≤ length items → length (take n items) ≡ n
length-take zero items h = refl
length-take (suc n) [] h = absurd (omega arith)
length-take (suc n) (item ∷ rest) h = omega (arith, length-take n rest (omega arith))

limited-IsFirst :
    (h : Hashes) (snapshot : Snapshot) (count : ℕ)
    → count ≤ length snapshot.items
    → IsFirst snapshot count (limited h snapshot count)
unfolding limited
limited-IsFirst h snapshot count b =
    let sorted = sort_func by_name snapshot.items in
    record {
      rest = drop count sorted;
      whole =
          subst (λ (l : List Item). Permᴰ l snapshot.items) (sym (take-append-drop count sorted))
            (sort_func-perm by_name snapshot.items);
      below =
          take-AllBelow-drop by_name count sorted (
            sort_func-IsSorted by_name (text_compare-IsOrder (λ (i : Item). i.name))
              snapshot.items);
      size = length-take count sorted (omega (arith, length-sort_func by_name snapshot.items, b));
    }

limited-valid :
    (h : Hashes) (snapshot : Snapshot) (count : ℕ)
    → ((items : List Item) → valid_digest (h.generation items) ≡ true)
    → snapshot_valid h snapshot ≡ true
    → snapshot_valid h (limited h snapshot count) ≡ true
unfolding limited snapshot_valid
limited-valid h snapshot count g v =
    let sorted = sort_func by_name snapshot.items in
    let kept = take count sorted in
    let parts = and_parts _ (h.generation sorted =ₜ snapshot.generation) v in
    let checked = and_parts (valid_digest snapshot.generation) (items_valid [] [] sorted) parts.0 in
    let in_order = sort-sorted kept (
      IsSorted-take count sorted (
        sort_func-IsSorted by_name (text_compare-IsOrder (λ (i : Item). i.name)) snapshot.items)) in
    and_true _ _
      (and_true _ _ (g (sort_func by_name kept)) (
        subst (λ (l : List Item). items_valid [] [] l ≡ true) (sym in_order)
          (take-items_valid [] [] count sorted checked.1)))
      (holds_of (Text-discrete _ _) refl)

-- There is no limit, or the collection is within it.
abbrev pub Fits : Snapshot → ℤ → Type 0
Fits snapshot maximum = (maximum ≤ℤ pos 0) ⊎ (pos (length snapshot.items) ≤ℤ maximum)

-- There is a limit, and the collection is over it.
abbrev pub Exceeds : Snapshot → ℤ → Type 0
Exceeds snapshot maximum =
    (pos 1 ≤ℤ maximum) × (pos (suc (pos_part maximum)) ≤ℤ pos (length snapshot.items))

-- What a cycle gets of a collection, and whether there is a warning.
abbrev pub IsLimited : Snapshot → ℤ → Snapshot × Bool → Type 0
IsLimited snapshot maximum r =
    (Fits snapshot maximum × (r ≡ (snapshot, false)))
    ⊎ (Exceeds snapshot maximum × (r.1 ≡ true) × IsFirst snapshot (pos_part maximum) r.0)

-- Of a snapshot that the planner's check accepts, and where generations are valid digests: without a
-- limit, or with room for all, a cycle gets the collection as it is and there is no warning. Over the
-- limit it gets as many items as the limit says, the first by name, and a warning. Either way the
-- planner's check accepts what it gets.
pub limit_snapshot_lem :
    (h : Hashes) (snapshot : Snapshot) (maximum : ℤ)
    → ((items : List Item) → valid_digest (h.generation items) ≡ true)
    → snapshot_valid h snapshot ≡ true
    → IsLimited snapshot maximum (limit_snapshot h snapshot maximum)
      × (snapshot_valid h (limit_snapshot h snapshot maximum).0 ≡ true)
unfolding limit_snapshot
limit_snapshot_lem h snapshot maximum g v =
    if_cases (λ (r : Snapshot × Bool). IsLimited snapshot maximum r × (snapshot_valid h r.0 ≡ true))
      (not (is_positive maximum) || leb (length snapshot.items) (pos_part maximum)) _ _
      (λ p. (inl (ground arith, refl), v))
      (λ p.
        let over = or_parts (not (is_positive maximum)) _ p in
        (
          inr (
            ground arith,
            refl,
            limited-IsFirst h snapshot (pos_part maximum) (ground (arith, over.1)),
          ),
          limited-valid h snapshot (pos_part maximum) g v,
        ))
