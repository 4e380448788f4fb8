-- ===== src/Dns/Valid.antt =====
-- When the button of the save is enabled, without the loops over the draft.
use mathlib.Core.List.{reverse-append, reverse-reverse}
use head_control.Common.{
  inr, inl, Option-cases, Bool-cases, Bool, Option, true, false, not, ◌&&◌, none, some, List, [],
  ◌∷◌, ◌++◌, ◌≡◌, ◌≢◌, ◌↔◌, refl, sym, ap, ◌∙◌, reverse, arith, All,
}
use head_control.Text.{Text, includes}
use head_control.Text.Equal.{text_eq_iff, includes-append}
use head_control.Dns.{
  Card, DnsRecord, RecordType, a, aaaa, validate_record, record_key, type_text, dupes_from, dupes,
  first_error, save_enabled, is_writable, add_member, is_none, is_empty,
}

-- Two records of one name and type.
abbrev pub SameRecord : DnsRecord → DnsRecord → Type 0
SameRecord r s = (r.name ≡ s.name) × (r.type ≡ s.type)

abbrev pub DistinctRecords : List DnsRecord → Type 0
DistinctRecords [] = Unit
DistinctRecords (r ∷ rs) = All (λ s. ¬ SameRecord r s) rs × DistinctRecords rs

-- Every record passes the check of the page, and no two have one name and type.
abbrev pub IsValid : List DnsRecord → Type 0
IsValid rs = All (λ r. validate_record r ≡ none) rs × DistinctRecords rs

abbrev tail_key : Text → RecordType → Text
tail_key s t = s ++ (b'/' ∷ type_text t)

reverse_key :
    (s : Text) (t : RecordType)
    → reverse (tail_key s t) ≡ reverse (type_text t) ++ (b'/' ∷ reverse s)
reverse_key s a = reverse-append s (b'/' ∷ type_text a)
reverse_key s aaaa = reverse-append s (b'/' ∷ type_text aaaa)

eq_of_reverse : (s t : Text) → reverse s ≡ reverse t → s ≡ t
eq_of_reverse s t h = sym (reverse-reverse s) ∙ ap reverse h ∙ reverse-reverse t

key_injective : (s t : Text) (k l : RecordType) → tail_key s k ≡ tail_key t l → (s ≡ t) × (k ≡ l)
key_injective s t k l h = units k l (sym (reverse_key s k) ∙ ap reverse h ∙ reverse_key t l)
  where
    units :
        (k l : RecordType)
        → reverse (type_text k) ++ (b'/' ∷ reverse s) ≡ reverse (type_text l) ++ (b'/' ∷ reverse t)
        → (s ≡ t) × (k ≡ l)
    units a a e = (eq_of_reverse s t (ground arith), refl)
    units a aaaa e = absurd (ground arith)
    units aaaa a e = absurd (ground arith)
    units aaaa aaaa e = (eq_of_reverse s t (ground arith), refl)

pub key_iff : (r s : DnsRecord) → (record_key r ≡ record_key s) ↔ SameRecord r s
unfolding record_key
key_iff r s = (key_injective r.name s.name r.type s.type, λ e. rw (e.0, e.1))

-- A loop that has found a duplicate does not forget it.
dupes_from-cons :
    (rs : List DnsRecord) (seen : List Text) (d : Text) (ds : List Text)
    → dupes_from rs seen (d ∷ ds) ≢ []
unfolding dupes_from
dupes_from-cons [] seen d ds = cc
dupes_from-cons (r ∷ rs) seen d ds = ground (
  arith,
  dupes_from-cons rs (add_member (record_key r) seen) d ds,
  dupes_from-cons rs (add_member (record_key r) seen) d (ds ++ record_key r ∷ []),
)

-- No record of the list has a key of `seen`.
abbrev Unseen : List Text → List DnsRecord → Type 0
Unseen seen rs = All (λ s. includes (record_key s) seen ≡ false) rs

abbrev Differ : DnsRecord → List DnsRecord → Type 0
Differ r rs = All (λ s. ¬ SameRecord r s) rs

Unseen_one :
    (s k : Text) (xs : List Text)
    → (includes s (xs ++ k ∷ []) ≡ false) ↔ ((includes s xs ≡ false) × (k ≢ s))
unfolding includes
Unseen_one s k xs = (
  λ h. (
    ground (arith, includes-append s xs (k ∷ [])),
    λ e. ground (arith, includes-append s xs (k ∷ []), text_eq_iff k s),
  ),
  λ h. ground (arith, includes-append s xs (k ∷ []), text_eq_iff k s),
)

Unseen-append :
    (r : DnsRecord) (seen : List Text) (rs : List DnsRecord)
    → Unseen seen rs
    → Differ r rs
    → Unseen (seen ++ record_key r ∷ []) rs
Unseen-append r seen [] h d = tt
Unseen-append r seen (s ∷ rs) h d = (
  (Unseen_one (record_key s) (record_key r) seen).1 (h.0, λ e. d.0 ((key_iff r s).0 e)),
  Unseen-append r seen rs h.1 d.1,
)

Unseen-of_append :
    (r : DnsRecord) (seen : List Text) (rs : List DnsRecord)
    → Unseen (seen ++ record_key r ∷ []) rs
    → Unseen seen rs × Differ r rs
Unseen-of_append r seen [] h = (tt, tt)
Unseen-of_append r seen (s ∷ rs) h =
    let one = (Unseen_one (record_key s) (record_key r) seen).0 h.0 in
    let rest = Unseen-of_append r seen rs h.1 in
    ((one.0, rest.0), (λ e. one.1 ((key_iff r s).1 e), rest.1))

dupes_from_sound :
    (rs : List DnsRecord) (seen : List Text)
    → dupes_from rs seen [] ≡ []
    → Unseen seen rs × DistinctRecords rs
unfolding dupes_from
dupes_from_sound [] seen h = (tt, tt)
dupes_from_sound (r ∷ rs) seen h = elim (Bool-cases (includes (record_key r) seen)) [
  | inl e ↦ absurd (dupes_from-cons rs seen (record_key r) [] (rw e at h))
  | inr e ↦
      let ih = dupes_from_sound rs (seen ++ record_key r ∷ []) (rw e at h) in
      let parts = Unseen-of_append r seen rs ih.0 in ((e, parts.0), (parts.1, ih.1))
]

dupes_from_complete :
    (rs : List DnsRecord) (seen : List Text)
    → Unseen seen rs
    → DistinctRecords rs
    → dupes_from rs seen [] ≡ []
unfolding dupes_from
dupes_from_complete [] seen u d = refl
dupes_from_complete (r ∷ rs) seen u d =
    rw (u.0)
      (dupes_from_complete rs (seen ++ record_key r ∷ []) (Unseen-append r seen rs u.1 d.0) d.1)

pub dupes_iff : (rs : List DnsRecord) → (dupes rs ≡ []) ↔ DistinctRecords rs
unfolding dupes includes
dupes_iff rs = (λ h. (dupes_from_sound rs [] h).1, λ d. dupes_from_complete rs [] (unseen rs) d)
  where
    unseen : (rs : List DnsRecord) → Unseen [] rs
    unseen [] = tt
    unseen (r ∷ rs) = (refl, unseen rs)

first_error_iff :
    (rs : List DnsRecord) → (first_error rs ≡ none) ↔ All (λ r. validate_record r ≡ none) rs
unfolding first_error
first_error_iff [] = (λ h. tt, λ h. refl)
first_error_iff (r ∷ rs) = elim (Option-cases (validate_record r)) [
  | inl e ↦ (
    λ h. (e, (first_error_iff rs).0 (ground arith)),
    λ h. ground (arith, (first_error_iff rs).1 h.1),
  )
  | inr e ↦ (λ h. absurd (ground (arith, e.1)), λ h. absurd (ground (arith, e.1)))
]

enabled_parts :
    (o : Option Text) (ds : List Text) (d w p : Bool)
    → ((d && (is_none o && (is_empty ds && (w && not p)))) ≡ true)
      ↔ ((d ≡ true) × (w ≡ true) × (p ≡ false) × (o ≡ none) × (ds ≡ []))
enabled_parts none [] d w p = ground arith
enabled_parts none (x ∷ ds) d w p = (λ h. absurd (ground arith), λ h. absurd (ground arith))
enabled_parts (some e) ds d w p = (λ h. absurd (ground arith), λ h. absurd (ground arith))

-- The button of the save can be pressed exactly where there are edits, the file can be written, no
-- save is under way, every record passes the check of the page, and no two records have one name
-- and type.
pub save_enabled_iff :
    (c : Card)
    → (save_enabled c ≡ true)
      ↔ ((c.dirty ≡ true) × (is_writable c.state ≡ true) × (c.pending ≡ false) × IsValid c.draft)
unfolding save_enabled
save_enabled_iff c =
    let parts =
      enabled_parts (first_error c.draft) (dupes c.draft) c.dirty (is_writable c.state) c.pending in
    let errors = first_error_iff c.draft in
    let doubles = dupes_iff c.draft in
    (
      λ h. let p = parts.0 h in (p.0, p.1, p.2, (errors.0 p.3, doubles.0 p.4)),
      λ h. parts.1 (h.0, h.1, h.2, errors.1 h.3.0, doubles.1 h.3.1),
    )
