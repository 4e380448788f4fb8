-- ===== src/Dns/Server.antt =====
-- The backend's side of a save: handleSaveDNSRecords in internal/server/handlers_dns.go and Save in
-- internal/dnsrecords/dnsrecords.go. The check of an address (`net.ParseIP`), `strings.TrimSpace`, the
-- reading and printing of JSON and the hash of a text are parameters; whether the new file can be
-- put in place of the old one is given. An entry of the audit log and of the list of versions is
-- left out.
use head_control.Common.{
  ℕ, ◌++◌, Option, none, some, Bool, false, not, ◌&&◌, ◌||◌, List, [], ◌∷◌, leb, if◌then◌else◌,
  length, all,
}
use head_control.Text.{Text, codes, text_eq, includes, split}
use head_control.Text.Sort.{text_lt}
use head_control.Dns.{DnsRecord, RecordType, SaveRequest, a, aaaa, is_label, record_key, type_text}

-- What the backend calls: `json.Unmarshal` gives none for a text that is no array of records.
pub record Library : Type 0 where
  pub is_ip4 : Text → Bool
  pub is_ip6 : Text → Bool
  pub trim_space : Text → Text
  pub unmarshal : Text → Option (List DnsRecord)
  pub marshal_indent : List DnsRecord → Text
  pub hash_content : Text → Text

-- What the path of the file leads to.
pub data File : Type 0 where
  missing unreadable : File
  content : Text → File

pub record Server : Type 0 where
  pub enabled : Bool
  pub replaceable : Bool
  pub file : File

-- `State`
pub record State : Type 0 where
  pub records : List DnsRecord
  pub hash : Text

pub data Reply : Type 0 where
  saved : State → Reply
  -- The code "conflict", with the state of the file.
  conflicts : State → Reply
  -- The codes "records_invalid", for every other error of `Save`, and "records_disabled".
  invalid disabled : Reply

abbrev pub reply_status : Reply → ℕ
reply_status (saved _) = 200
reply_status (conflicts _) = 409
reply_status invalid = 400
reply_status disabled = 409

-- `strings.TrimSuffix(s, ".")`
unfoldable pub trim_dot : Text → Text
trim_dot [] = []
trim_dot (c ∷ []) = if text_eq (c ∷ []) (b'.' ∷ []) then [] else c ∷ []
trim_dot (c ∷ d ∷ s) = c ∷ trim_dot (d ∷ s)

abbrev record_lt : DnsRecord → DnsRecord → Bool
record_lt r s =
    if text_eq r.name s.name
    then text_lt (type_text r.type) (type_text s.type)
    else text_lt r.name s.name

unfoldable pub insert_record : DnsRecord → List DnsRecord → List DnsRecord
insert_record r [] = r ∷ []
insert_record r (s ∷ ss) =
    let rest = insert_record r ss in if record_lt s r then s ∷ rest else r ∷ s ∷ ss

unfoldable pub sort_records : List DnsRecord → List DnsRecord
unfolding insert_record
sort_records [] = []
sort_records (r ∷ rs) = insert_record r (sort_records rs)

-- The loop that looks for a duplicate.
unfoldable pub has_duplicate : List DnsRecord → List Text → Bool
unfolding includes record_key
has_duplicate [] seen = false
has_duplicate (r ∷ rs) seen = includes (record_key r) seen || has_duplicate rs (record_key r ∷ seen)

-- `loadLocked`; none is an error.
unfoldable pub load : Library → File → Option State
unfolding text_eq
load lib missing = some (record { records = []; hash = lib.hash_content [] })
load lib unreadable = none
load lib (content text) =
    if text_eq (lib.trim_space text) []
    then some (record { records = []; hash = lib.hash_content text })
    else elim (lib.unmarshal text) [
      | none ↦ none
      | some rs ↦ some (record { records = rs; hash = lib.hash_content text })
    ]

abbrev value_valid : Library → RecordType → Text → Bool
value_valid lib a v = lib.is_ip4 v
value_valid lib aaaa v = lib.is_ip6 v

-- `Validate`
unfoldable pub record_valid : Library → DnsRecord → Bool
unfolding trim_dot split is_label all text_eq
record_valid lib r =
    value_valid lib r.type r.value
    && (not (text_eq (trim_dot r.name) [])
        && (leb (length (trim_dot r.name)) 253 && all is_label (split b'.' (trim_dot r.name))))

-- The text of the new file.
abbrev pub file_text : Library → List DnsRecord → Text
file_text lib rs = lib.marshal_indent (sort_records rs) ++ codes "\n"

abbrev pub saved_state : Library → List DnsRecord → State
saved_state lib rs = record {
  records = sort_records rs;
  hash = lib.hash_content (file_text lib rs);
}

-- The part of `Save` that writes.
abbrev write_records : Library → Server → List DnsRecord → Reply × Server
write_records lib s rs =
    if s.replaceable
    then (saved (saved_state lib rs), record s { file = content (file_text lib rs) })
    else (invalid, s)

-- The request forces, has no hash, or has the hash of the file.
abbrev pub accepts : SaveRequest → Text → Bool
accepts q hash = q.force || (text_eq q.expected_hash [] || text_eq hash q.expected_hash)

-- `Save`, from where it has checked the records.
abbrev pub save_checked : Library → Server → SaveRequest → Option State → Reply × Server
save_checked lib s q none = (invalid, s)
save_checked lib s q (some current) =
    if accepts q current.hash then write_records lib s q.records else (conflicts current, s)

-- The handler: the reply, and the server afterwards.
unfoldable pub save_records : Library → Server → SaveRequest → Reply × Server
unfolding all record_valid has_duplicate sort_records text_eq load
save_records lib s q =
    if not s.enabled
    then (disabled, s)
    else if not (all (record_valid lib) q.records) || has_duplicate q.records []
    then (invalid, s)
    else save_checked lib s q (load lib s.file)
