-- ===== src/Dns/Taken.antt =====
-- What the backend makes of records that the page lets through.
use head_control.Common.{
  Bool, not, if◌then◌else◌, ◌||◌, some, ◌∙◌, ap, true, false, List, [], ◌∷◌, ◌≡◌, refl, arith, All,
  all,
}
use head_control.Text.{Text, includes}
use head_control.Text.Equal.{text_eq_iff}
use head_control.Dns.{DnsRecord, SaveRequest, record_key}
use head_control.Dns.Valid.{SameRecord, DistinctRecords, key_iff}
use head_control.Dns.Server.{
  Library, Server, State, saved, conflicts, invalid, disabled, content, load, accepts, save_checked,
  saved_state, file_text, record_valid, save_records, has_duplicate,
}

-- No record of the list has a key that was seen.
abbrev Unseen : List Text → List DnsRecord → Type 0
Unseen seen rs = All (λ s. includes (record_key s) seen ≡ false) rs

Unseen-cons :
    (r : DnsRecord) (seen : List Text) (rs : List DnsRecord)
    → Unseen seen rs
    → All (λ s. ¬ SameRecord r s) rs
    → Unseen (record_key r ∷ seen) rs
unfolding includes
Unseen-cons r seen [] h d = tt
Unseen-cons r seen (s ∷ rs) h d = (
  ground (arith, text_eq_iff (record_key r) (record_key s), key_iff r s),
  Unseen-cons r seen rs h.1 d.1,
)

has_duplicate_none :
    (rs : List DnsRecord) (seen : List Text)
    → Unseen seen rs
    → DistinctRecords rs
    → has_duplicate rs seen ≡ false
unfolding has_duplicate
has_duplicate_none [] seen u d = refl
has_duplicate_none (r ∷ rs) seen u d =
    rw (u.0) (has_duplicate_none rs (record_key r ∷ seen) (Unseen-cons r seen rs u.1 d.0) d.1)

Unseen-nil : (rs : List DnsRecord) → Unseen [] rs
unfolding includes
Unseen-nil [] = tt
Unseen-nil (r ∷ rs) = (refl, Unseen-nil rs)

-- Records that the page lets through have no duplicates for the backend.
pub has_duplicate-DistinctRecords :
    (rs : List DnsRecord) → DistinctRecords rs → has_duplicate rs [] ≡ false
has_duplicate-DistinctRecords rs d = has_duplicate_none rs [] (Unseen-nil rs) d

-- The backend refuses none of the records.
abbrev pub IsTaken : Library → List DnsRecord → Type 0
IsTaken lib rs = all (record_valid lib) rs ≡ true

if_true {ℓ} : {A : Type ℓ} (b : Bool) (x y : A) → b ≡ true → (if b then x else y) ≡ x
if_true b x y h = rw h refl

if_false {ℓ} : {A : Type ℓ} (b : Bool) (x y : A) → b ≡ false → (if b then x else y) ≡ y
if_false b x y h = rw h refl

-- Neither of the first two branches is taken.
third_branch {ℓ} :
    {A : Type ℓ} (on taken again : Bool) (x y z : A)
    → on ≡ true
    → taken ≡ true
    → again ≡ false
    → (if not on then x else if not taken || again then y else z) ≡ z
third_branch on taken again x y z a b c = rw (a, b, c) refl

module _ (lib : Library) where
  -- What is left to decide once the records are taken and the file is read.
  save_records-taken :
      (s : Server) (q : SaveRequest) (current : State)
      → s.enabled ≡ true
      → IsTaken lib q.records
      → DistinctRecords q.records
      → load lib s.file ≡ some current
      → save_records lib s q ≡ save_checked lib s q (some current)
  unfolding save_records
  save_records-taken s q current on t d h =
      third_branch s.enabled (all (record_valid lib) q.records) (has_duplicate q.records [])
        (disabled, s) (invalid, s) (save_checked lib s q (load lib s.file)) on t
        (has_duplicate-DistinctRecords q.records d)
      ∙ ap (save_checked lib s q) h

  pub save_records-saved :
      (s : Server) (q : SaveRequest) (current : State)
      → s.enabled ≡ true
      → IsTaken lib q.records
      → DistinctRecords q.records
      → load lib s.file ≡ some current
      → accepts q current.hash ≡ true
      → s.replaceable ≡ true
      → save_records lib s q
        ≡ (saved (saved_state lib q.records), record s { file = content (file_text lib q.records) })
  save_records-saved s q current on t d h ok w =
      save_records-taken s q current on t d h
      ∙ if_true (accepts q current.hash) _ _ ok
      ∙ if_true s.replaceable _ _ w

  pub save_records-conflicts :
      (s : Server) (q : SaveRequest) (current : State)
      → s.enabled ≡ true
      → IsTaken lib q.records
      → DistinctRecords q.records
      → load lib s.file ≡ some current
      → accepts q current.hash ≡ false
      → save_records lib s q ≡ (conflicts current, s)
  save_records-conflicts s q current on t d h stale =
      save_records-taken s q current on t d h ∙ if_false (accepts q current.hash) _ _ stale
