-- ===== src/Operation/Store/Sorted.antt =====
-- `sort_keys=True` on the metadata of a state.
use pasi_engineering_workspa.Prelude.{
  ◌≡◌, refl, ◌∙◌, Bool, String, str_eq, none, some, [], ◌∷◌, if◌then◌else◌, arith, eq_iff, length,
}
use pasi_engineering_workspa.Dict.{Dict, lookup}
use pasi_engineering_workspa.Sort.{insert, sort, sort-All, length-sort}
use pasi_engineering_workspa.Text.Order.{leb_text}
use pasi_engineering_workspa.Operation.Metadata.{Entry, Distinct, IsMetadata}

abbrev key_before : String × String → String × String → Bool
key_before a b = leb_text a.0 b.0

unfoldable pub sort_metadata : Dict String → Dict String
unfolding sort
sort_metadata d = sort key_before d

lookup-insert :
    (j k v : String) (d : Dict String)
    → lookup k d ≡ none
    → lookup j (insert key_before (k, v) d) ≡ (if str_eq k j then some v else lookup j d)
unfolding insert lookup
lookup-insert j k v [] fresh = refl
lookup-insert j k v ((i, w) ∷ d) fresh =
    ground (arith, eq_iff i k, eq_iff k j, eq_iff i j, lookup-insert j k v d)

insert-Distinct :
    (k v : String) (d : Dict String)
    → lookup k d ≡ none
    → Distinct d
    → Distinct (insert key_before (k, v) d)
unfolding insert lookup
insert-Distinct k v [] fresh h = (refl, tt)
insert-Distinct k v ((i, w) ∷ d) fresh (first, h) =
    ground (arith, eq_iff i k, eq_iff k i, lookup-insert i k v d, insert-Distinct k v d)

-- Sorting the entries changes no value that is found.
pub lookup-sort_metadata :
    (j : String) (d : Dict String) → Distinct d → lookup j (sort_metadata d) ≡ lookup j d
unfolding sort_metadata lookup
lookup-sort_metadata j [] h = refl
lookup-sort_metadata j ((k, v) ∷ d) (fresh, h) =
    lookup-insert j k v (sort_metadata d) (lookup-sort_metadata k d h ∙ fresh)
    ∙ ground (arith, lookup-sort_metadata j d h)

sort_metadata-Distinct : (d : Dict String) → Distinct d → Distinct (sort_metadata d)
unfolding sort_metadata
sort_metadata-Distinct [] h = tt
sort_metadata-Distinct ((k, v) ∷ d) (fresh, h) =
    insert-Distinct k v (sort_metadata d) (lookup-sort_metadata k d h ∙ fresh)
      (sort_metadata-Distinct d h)

pub sort_metadata-IsMetadata : (d : Dict String) → IsMetadata d → IsMetadata (sort_metadata d)
sort_metadata-IsMetadata d m = record {
  entry = unfold sort_metadata in sort-All key_before Entry d m.entry;
  distinct = sort_metadata-Distinct d m.distinct;
}

pub length-sort_metadata : (d : Dict String) → length (sort_metadata d) ≡ length d
unfolding sort_metadata
length-sort_metadata d = length-sort key_before d
