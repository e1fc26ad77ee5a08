-- ===== src/Reconcile/Migration/Soundness.antt =====
-- internal/reconcile/migration_service.go: the bindings that `projectEntries` has made so far.
use frame_tv_art_manager.Reconcile.Migration.Entries.{positive, not_blank, IsNamed, IsEntry}
use frame_tv_art_manager.Samsung.Adapter.Facts.{true-ne-false}
use frame_tv_art_manager.Reconcile.Validate.Maps.{insert-HasDistinctContents, HasDistinctContents}
use frame_tv_art_manager.Reconcile.Validate.{binding_valid}
use frame_tv_art_manager.Reconcile.Types.{Binding}
use frame_tv_art_manager.Prelude.Hex.{valid_digest-hex_encode, hex_encode, valid_digest, IsDigest}
use frame_tv_art_manager.Prelude.Dict.{
  Entries-lookup, Entries-imp, insert-HasUniqueKeys, insert-Entries, HasUniqueKeys, lookup, Entries,
  Dict,
}
use frame_tv_art_manager.Collection.Types.{Item}
use frame_tv_art_manager.Reconcile.Migration.{
  project_entries, project_entry, bind_entry, has_slash, bound, Projection,
}
use frame_tv_art_manager.Prelude.{
  and_true, ◌=ₜ◌, Option, if_cases, base, is_trimmed, holds_of, is_empty, inr, ap, ◌∙◌, sym, ◌≢◌,
  Text-discrete, ◌<◌, not, and_parts, contains, List, ◌≡◌, Text, ℕ, true, false, none, some, [],
  ◌∷◌, refl, arith,
}
use frame_tv_art_manager.Reconcile.Errors.{ok, err, Result, ◌>>=◌}

module _ (items : Dict Item) (inventory : List Text) where
  -- A binding of artwork of the collection to what the TV has.
  pub record IsProven (digest : Text) (b : Binding) : Type 0 where
    pub item : Item
    pub found : lookup b.name items ≡ some item
    pub same : hex_encode item.digest ≡ digest
    pub listed : contains Text-discrete inventory b.content_id ≡ true

  module _ (generation : Text) (confirmed_at : ℕ) where
    -- The bindings so far.
    pub record IsSound (p : Projection) : Type 0 where
      pub proven : Entries IsProven p.bindings
      pub valid : Entries (λ k b. binding_valid k b ≡ true) p.bindings
      pub unique : HasUniqueKeys p.bindings
      pub distinct : HasDistinctContents p.bindings
      pub used :
          Entries (λ k b. contains Text-discrete p.used_content_ids b.content_id ≡ true) p.bindings

    abbrev pub Sound : Result Projection → Type 0
    Sound (err e) = Unit
    Sound (ok p) = IsSound p

    bound_valid :
        (name id digest : Text)
        → valid_digest digest ≡ true
        → IsEntry name id
        → valid_digest generation ≡ true
        → 0 < confirmed_at
        → binding_valid digest (record {
          digest = digest;
          content_id = id;
          name = name;
          collection_generation = generation;
          confirmed_at = confirmed_at;
        })
          ≡ true
    unfolding binding_valid
    bound_valid name id digest d e g c =
        let slash = and_parts _ (not (has_slash name)) e.0 in
        let named = and_parts _ (base name =ₜ name) slash.0 in
        let name_parts = and_parts (not (is_empty name)) (is_trimmed name) named.0 in
        let id_parts = and_parts (not (is_empty id)) (is_trimmed id) e.1 in
        and_true _ _
          (and_true _ _
            (and_true _ _ (and_true _ _ d (holds_of (Text-discrete digest digest) refl))
              (and_true _ _ (not_blank id id_parts.0 id_parts.1) id_parts.1))
            (and_true _ _ named.1 (not_blank name name_parts.0 name_parts.1)))
          (and_true _ _ g (positive confirmed_at c))

    bound-IsSound :
        (name id : Text) (item : Item) (p : Projection)
        → IsSound p
        → lookup name items ≡ some item
        → IsDigest item.digest
        → contains Text-discrete inventory id ≡ true
        → IsEntry name id
        → valid_digest generation ≡ true
        → 0 < confirmed_at
        → contains Text-discrete p.used_content_ids id ≡ false
        → IsSound (bound items inventory generation confirmed_at name id (hex_encode item.digest) p)
    unfolding contains
    bound-IsSound name id item p s f d l e g c fresh = record {
      proven =
          insert-Entries IsProven _ _ p.bindings
            (record { item = item; found = f; same = refl; listed = l }) s.proven;
      valid =
          insert-Entries (λ k b. binding_valid k b ≡ true) _ _ p.bindings
            (bound_valid name id _ (valid_digest-hex_encode item.digest d) e g c) s.valid;
      unique = insert-HasUniqueKeys _ _ p.bindings s.unique;
      distinct =
          insert-HasDistinctContents _ _ p.bindings s.unique s.distinct
            (Entries-imp _ _ (λ k b u. inr (other b.content_id u)) p.bindings s.used);
      used =
          insert-Entries
            (λ k b. contains Text-discrete (id ∷ p.used_content_ids) b.content_id ≡ true) _ _
            p.bindings (ground (arith, holds_of (Text-discrete id id) refl))
            (Entries-imp _ _ (λ k b u. ground (arith, u)) p.bindings s.used);
    }
      where
        other : (x : Text) → contains Text-discrete p.used_content_ids x ≡ true → x ≢ id
        other x u q =
            true-ne-false (sym u ∙ (ap (contains Text-discrete p.used_content_ids) q ∙ fresh))

    bind-Sound :
        (name id : Text) (item : Item) (p : Projection)
        → IsSound p
        → lookup name items ≡ some item
        → IsDigest item.digest
        → contains Text-discrete inventory id ≡ true
        → IsEntry name id
        → valid_digest generation ≡ true
        → 0 < confirmed_at
        → Sound
            (bind_entry items inventory generation confirmed_at name id (hex_encode item.digest) p)
    unfolding bind_entry
    bind-Sound name id item p s f d l e g c =
        if_cases Sound (contains Text-discrete p.used_digests (hex_encode item.digest)) _ _
          (λ _. tt)
          (λ _.
            if_cases Sound (contains Text-discrete p.used_content_ids id) _ _ (λ _. tt)
              (λ fresh. bound-IsSound name id item p s f d l e g c fresh))

    entry-Sound :
        (name id : Text) (found : Option Item) (p : Projection)
        → lookup name items ≡ found
        → IsSound p
        → Entries IsNamed items
        → IsEntry name id
        → valid_digest generation ≡ true
        → 0 < confirmed_at
        → Sound (project_entry items inventory generation confirmed_at name id found p)
    unfolding project_entry
    entry-Sound name id none p f s n e g c = record {
      proven = s.proven;
      valid = s.valid;
      unique = s.unique;
      distinct = s.distinct;
      used = s.used;
    }
    entry-Sound name id (some item) p f s n e g c =
        if_cases Sound (contains Text-discrete inventory id) _ _
          (λ l.
            bind-Sound name id item p s f (Entries-lookup IsNamed name item items n f).0 l e g c)
          (λ _. record {
            proven = s.proven;
            valid = s.valid;
            unique = s.unique;
            distinct = s.distinct;
            used = s.used;
          })

    pub entries-Sound :
        (mapping : Dict Text) (p : Projection)
        → IsSound p
        → Entries IsNamed items
        → Entries IsEntry mapping
        → valid_digest generation ≡ true
        → 0 < confirmed_at
        → Sound (project_entries items inventory generation confirmed_at mapping p)
    unfolding project_entries
    entries-Sound [] p s n e g c = s
    entries-Sound ((name, id) ∷ rest) p s n e g c =
        then_entries
          (project_entry items inventory generation confirmed_at name id (lookup name items) p)
          (λ q h. entries-Sound rest q h n e.1 g c)
          (entry-Sound name id (lookup name items) p refl s n e.0 g c)
      where
        then_entries :
            (r : Result Projection)
            → ((q : Projection)
                → IsSound q
                → Sound (project_entries items inventory generation confirmed_at rest q))
            → Sound r
            → Sound (r >>= project_entries items inventory generation confirmed_at rest)
        then_entries (err f) go h = tt
        then_entries (ok q) go h = go q h
