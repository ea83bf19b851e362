-- ===== src/Storage/Tests.antt =====
-- The in-memory store at concrete inputs.
use fsnet.Base.{
  ◌⊎◌, text_lt, ◌≡◌, refl, true, false, [], ◌∷◌, some, ok, arith, codes, text_eq, List,
}
use fsnet.Base.Lists.{All}
use fsnet.Base.Maps.{find, insert_or_assign}
use fsnet.Storage.{Record, Mutation, Memory, transact, validate, compare_exchange, get}
use fsnet.Storage.Apply.{IsStore, Grows}
use fsnet.Storage.Committed.{Committed}
use fsnet.Storage.Decides.{Matches, transact_decides}
use fsnet.Storage.History.{start, then_transact, no_aba, IsWrite}
use fsnet.Storage.Swap.{swapped, exchanged_once}
use fsnet.Storage.Transact.{transact-IsStore}
use fsnet.Storage.View.{view, assign_all, view-transact}

abbrev pub empty_store : Memory
empty_store = record { records = []; revision = 0 }

pub empty_store-IsStore : IsStore empty_store
empty_store-IsStore = record {
  sorted = tt;
  versions = λ k r e. absurd (unfold find in cc);
  in_range = omega arith;
}

abbrev creations : List Mutation
creations =
    record { key = codes "a"; expected = 0; value = some (codes "1"); check_only = false }
    ∷ record { key = codes "b"; expected = 0; value = some (codes "2"); check_only = false }
    ∷ []

abbrev two_records : Memory
two_records = record {
  records =
      (codes "a", record { value = codes "1"; version = 1 })
      ∷ (codes "b", record { value = codes "2"; version = 2 })
      ∷ [];
  revision = 2;
}

created : transact creations empty_store ≡ ok (true, two_records)
unfolding transact find insert_or_assign text_eq text_lt
created = refl

-- A second creation of the same keys is refused as a whole.
created_again : transact creations two_records ≡ ok (false, two_records)
unfolding transact find text_eq
created_again = refl

two_records-IsStore : IsStore two_records
two_records-IsStore =
    (transact-IsStore creations empty_store two_records true empty_store-IsStore created).0

transact-IsStore_example : IsStore two_records × Grows empty_store two_records
transact-IsStore_example =
    transact-IsStore creations empty_store two_records true empty_store-IsStore created

creations_valid : validate creations ≡ ok tt
unfolding validate text_eq
creations_valid = refl

transact_decides_example :
    (All (Matches empty_store) creations
      × ((t : Memory) × (transact creations empty_store ≡ ok (true, t))
          × Committed creations empty_store t))
    ⊎ (¬ All (Matches empty_store) creations
        × (transact creations empty_store ≡ ok (false, empty_store)))
transact_decides_example =
    transact_decides creations empty_store empty_store-IsStore creations_valid (omega arith)

view-transact_example : view two_records ≡ assign_all creations (view empty_store)
view-transact_example =
    view-transact creations empty_store two_records true empty_store-IsStore created

no_aba_example :
    ◌≡◌ {A = Record}
      (record { value = codes "1"; version = 1 })
      (record { value = codes "1"; version = 1 })
unfolding get find text_eq
no_aba_example =
    no_aba two_records two_records (codes "a") _ _ two_records-IsStore
      (then_transact creations start created_again) refl refl refl

IsWrite-a : IsWrite (codes "a") (codes "3") 1
IsWrite-a = omega arith

exchanged_a :
    compare_exchange (codes "a") 1 (codes "3") two_records
    ≡ ok (true, swapped (codes "a") (codes "3") two_records)
unfolding compare_exchange transact find text_eq
exchanged_a = refl

exchanged_once_example : ¬ (
    compare_exchange (codes "a") 1 (codes "4") (swapped (codes "a") (codes "3") two_records)
    ≡ ok (true, swapped (codes "a") (codes "4") (swapped (codes "a") (codes "3") two_records)))
exchanged_once_example =
    exchanged_once (codes "a") (codes "3") (codes "4") 1 two_records
      (swapped (codes "a") (codes "3") two_records) _ _ two_records-IsStore (omega arith)
      exchanged_a start
