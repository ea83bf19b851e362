-- ===== src/TimerIndex/Fields.antt =====
-- The entries of a shard are read back one by one.
use fsnet.Base.{
  suc, [], ◌∷◌, ◌++◌, refl, ◌==◌, ◌||◌, not, ◌≤◌, length, arith, ok, false, ◌^◌, ◌≡◌, All, ◌<◌, ℕ,
}
use fsnet.Base.Errors.{invalid_argument, runtime_error, >>=-eq-ok, ok-subst, throw_if-eq-ok}
use fsnet.Base.Int.{negsuc, pos, int64_max, to_u64, IsInt64, is_negative, ℤ}
use fsnet.Base.Maps.{emplace_last, emplace, IsSorted, Map}
use fsnet.Base.Tests.{le→ltb_false}
use fsnet.Base.Texts.{text_eq→eq, text_eq, Bytes}
use fsnet.TimerIndex.{shard, identity, bad_entry, Entry}
use fsnet.TimerIndex.Decode.{get_entry, get_entries}
use fsnet.TimerIndex.Encode.{put_entry, put_entries}
use fsnet.Wire.{get_blob, or_throw, get_integer, get_flag, pure, put_blob}
use fsnet.Wire.Reads.{
  Reads-or_throw, Reads-flag, Reads-end, Reads-guard, Reads-integer, Reads-pure, Reads-put_blob,
  Reads-bind, Reads,
}
use mathlib.Core.List.{append-nil, append_assoc}

-- Numbers that are those of the entry's types.
pub record EntryFits (entry : Entry) : Type 0 where
  pub base_version : entry.base_version < 2 ^ 64
  pub fence : entry.fence < 2 ^ 64
  pub due_ms : IsInt64 entry.due_ms

abbrev pub AllFit : Map Entry → Type 0
AllFit entries = All (λ (p : Bytes × Entry). EntryFits p.1) entries

-- A due time that is not negative is the number that is written for it.
pos-to_u64 :
    (due : ℤ)
    → is_negative due ≡ false
    → IsInt64 due
    → (to_u64 due ≤ int64_max) × (pos (to_u64 due) ≡ due)
pos-to_u64 (pos n) h fits = (fits, refl)
pos-to_u64 (negsuc n) h fits = cc

not_negative : (entry : Entry) → bad_entry entry ≡ false → is_negative entry.due_ms ≡ false
unfolding bad_entry
not_negative entry h = ground arith

put_entry-key :
    (index : ℕ) (key : Bytes) (entry : Entry) (out : Bytes)
    → put_entry index key entry ≡ ok out
    → key ≡ identity entry.type entry.id
unfolding put_entry
put_entry-key index key entry out h =
    let (_, h1) = throw_if-eq-ok (bad_entry entry) _ _ h in
    let (named, _) =
      throw_if-eq-ok
        (not (text_eq key (identity entry.type entry.id)) || not (shard entry.id == index)) _ _
        h1 in
    text_eq→eq key (identity entry.type entry.id) (ground (arith, named))

Reads-entry :
    (index : ℕ) (key : Bytes) (entry : Entry) (out : Bytes)
    → EntryFits entry
    → put_entry index key entry ≡ ok out
    → Reads get_entry out entry
unfolding put_entry get_entry
Reads-entry index key entry out fits h =
    let (good, h1) = throw_if-eq-ok (bad_entry entry) _ _ h in
    let (_, h2) =
      throw_if-eq-ok
        (not (text_eq key (identity entry.type entry.id)) || not (shard entry.id == index)) _ _
        h1 in
    let (type, e3, h3) = >>=-eq-ok (put_blob entry.type) _ h2 in
    let (id, e4, h4) = >>=-eq-ok (put_blob entry.id) _ h3 in
    let (token, e5, h5) = >>=-eq-ok (put_blob entry.token) _ h4 in
    let (placement, e6, same) = >>=-eq-ok (put_blob entry.placement) _ h5 in
    let (small, due) = pos-to_u64 entry.due_ms (not_negative entry good) fits.due_ms in
    ok-subst (λ text. Reads get_entry text entry) same
      (Reads-bind get_blob _ type _ entry.type _ (Reads-put_blob _ _ e3) (
        Reads-bind get_blob _ id _ entry.id _ (Reads-put_blob _ _ e4) (
          Reads-bind get_blob _ token _ entry.token _ (Reads-put_blob _ _ e5) (
            Reads-bind get_integer _ _ _ entry.base_version _ (Reads-integer _ fits.base_version) (
              Reads-bind get_integer _ _ _ entry.fence _ (Reads-integer _ fits.fence) (
                Reads-bind get_integer _ _ _ (to_u64 entry.due_ms) _
                  (Reads-integer _ (omega (arith, small)))
                  (Reads-bind get_blob _ placement _ entry.placement _ (Reads-put_blob _ _ e6) (
                    Reads-guard _ runtime_error _ _ _ (le→ltb_false int64_max _ small) (
                      Reads-end (get_flag runtime_error) _ _ entry.pending _
                        (Reads-flag runtime_error entry.pending)
                        (rw due (
                          Reads-guard (bad_entry entry) invalid_argument (pure entry) [] entry good
                            (Reads-pure entry))))))))))))

pub Reads-entries :
    (index : ℕ) (entries before : Map Entry) (out : Bytes)
    → AllFit entries
    → IsSorted (before ++ entries)
    → put_entries index entries ≡ ok out
    → Reads (get_entries (length entries) before) out (before ++ entries)
unfolding put_entries get_entries
Reads-entries index [] before out fit sorted h =
    ok-subst (λ text. Reads (get_entries 0 before) text (before ++ [])) h
      (rw (append-nil before) (Reads-pure before))
Reads-entries index ((key, entry) ∷ entries) before out (fits, fit) sorted h =
    let (one, e1, h1) = >>=-eq-ok (put_entry index key entry) _ h in
    let (rest, e2, same) = >>=-eq-ok (put_entries index entries) _ h1 in
    let here : IsSorted ((before ++ ((key, entry) ∷ [])) ++ entries) =
      rw (append_assoc before ((key, entry) ∷ []) entries) sorted in
    ok-subst
      (λ text.
        Reads (get_entries (suc (length entries)) before) text (before ++ ((key, entry) ∷ entries)))
      same
      (Reads-bind get_entry _ one _ entry _ (Reads-entry index key entry one fits e1) (
        Reads-bind (or_throw (emplace (identity entry.type entry.id) entry before) runtime_error) _
          [] _ (before ++ ((key, entry) ∷ [])) _
          (Reads-or_throw _ _ _ (
            rw (← put_entry-key index key entry one e1)
              (emplace_last key entry before entries sorted)))
          (rw (append_assoc before ((key, entry) ∷ []) entries) at
            (Reads-entries index entries (before ++ ((key, entry) ∷ [])) rest fit here e2))))
