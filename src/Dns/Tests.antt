-- ===== src/Dns/Tests.antt =====
-- The card of extra records at concrete events.
use head_control.Common.{
  Option, none, if◌then◌else◌, true, false, some, List, [], ◌∷◌, ◌++◌, ◌≡◌, ◌↔◌, refl, arith, All,
  map, all, any,
}
use head_control.Text.{Text, codes, has_unit, text_eq, join, trim, is_space}
use head_control.Dns.{
  Card, DnsRecord, DnsState, SaveRequest, Event, Answer, a, aaaa, run, step, start, ipv4, is_name,
  validate_record, dupes, save_enabled, record_key,
}
use head_control.Dns.Kept.{dns_draft-run}
use head_control.Dns.Sent.{IsChecked, run-IsChecked}
use head_control.Dns.Stale.{Replaces, draft-saved, save_records-fetched, save_records-stale}
use head_control.Dns.Taken.{IsTaken}
use head_control.Dns.Valid.{IsValid, save_enabled_iff}
use head_control.Dns.Server.{
  reply_status, Library, Server, State, File, missing, content, conflicts, invalid, save_records,
  record_valid, load, has_duplicate,
}

abbrev web : DnsRecord
web = record { name = codes "web.example.com"; type = a; value = codes "100.64.0.3" }

abbrev web6 : DnsRecord
web6 = record { name = codes "web.example.com"; type = aaaa; value = codes "fd7a::3" }

abbrev nas : DnsRecord
nas = record { name = codes "nas"; type = a; value = codes "100.64.0.9" }

-- The test of an address takes numbers above 255.
ipv4_tests : all ipv4 (codes "10.0.0.1" ∷ codes "999.1.1.1" ∷ []) ≡ true
unfolding ipv4 all
ipv4_tests = refl

ipv4_others : any ipv4 (codes "10.0.0" ∷ codes "10.0.0.1." ∷ codes "1000.0.0.1" ∷ []) ≡ false
unfolding ipv4 any
ipv4_others = refl

name_tests : all is_name (codes "a" ∷ codes "web-1.Example.com" ∷ []) ≡ true
unfolding is_name all
name_tests = refl

name_others : any is_name ([] ∷ codes "-a" ∷ codes "a-" ∷ codes "a..b" ∷ codes "a." ∷ []) ≡ false
unfolding is_name any
name_others = refl

dupes_test : dupes (web ∷ nas ∷ web6 ∷ nas ∷ nas ∷ []) ≡ codes "nas/A" ∷ []
unfolding dupes text_eq
dupes_test = refl

validate_record_test :
    validate_record (record web { value = codes "x" })
    ≡ some (codes "\"x\" is not a valid IPv4 address")
unfolding validate_record
validate_record_test = refl

-- The text "nas" stands for one record and is otherwise the keys of the records; no other text is
-- read. The hash is the text with a mark.
abbrev unmarshal_nas : Text → Option (List DnsRecord)
unmarshal_nas text = if text_eq text (codes "nas") then some (nas ∷ []) else none

abbrev lib : Library
lib = record {
  is_ip4 = ipv4;
  is_ip6 = has_unit b':';
  trim_space = trim;
  unmarshal = unmarshal_nas;
  marshal_indent = λ rs. join (codes ",") (map record_key rs);
  hash_content = λ text. b'#' ∷ text;
}

abbrev server_of : File → Server
server_of file = record { enabled = true; replaceable = true; file = file }

abbrev empty_server : Server
empty_server = server_of missing

abbrev nas_server : Server
nas_server = server_of (content (codes "nas"))

abbrev hash : List DnsRecord → Text
hash [] = codes "#"
hash (r ∷ rs) = codes "#web"

abbrev state_of : List DnsRecord → DnsState
state_of rs = record {
  records_enabled = true;
  records_writable = true;
  records = some rs;
  records_hash = some (hash rs);
}

abbrev edits : List Event
edits =
    Event.fetched (state_of (web ∷ []))
    ∷ Event.record_added
    ∷ Event.name_typed 1 (codes "nas")
    ∷ Event.value_typed 1 (codes "100.64.0.9")
    ∷ []

abbrev edited : Card
edited = record start { state = some (state_of (web ∷ [])); draft = web ∷ nas ∷ []; dirty = true }

run-edits : run start edits ≡ edited
unfolding run
run-edits = refl

edited-IsValid : IsValid edited.draft
unfolding validate_record
edited-IsValid = ((refl, (refl, tt)), ((λ e. ground arith, tt), (tt, tt)))

save_enabled_iff_example :
    (save_enabled edited ≡ true)
    ↔ ((true ≡ true) × (true ≡ true) × (false ≡ false) × IsValid (web ∷ nas ∷ []))
save_enabled_iff_example = save_enabled_iff edited

run-IsChecked_test :
    All IsChecked
      (run start (edits ++ Event.save_clicked ∷ Event.answer_came (Answer.refused 409) ∷ [])).sent
run-IsChecked_test =
    run-IsChecked start (edits ++ Event.save_clicked ∷ Event.answer_came (Answer.refused 409) ∷ [])
      tt

dns_draft-run_test :
    ((run edited (
        Event.fetched (state_of [])
        ∷ Event.save_clicked
        ∷ Event.answer_came Answer.broken
        ∷ [])).draft
      ≡ web ∷ nas ∷ [])
    × ((run edited (
          Event.fetched (state_of [])
          ∷ Event.save_clicked
          ∷ Event.answer_came Answer.broken
          ∷ [])).dirty
        ≡ true)
dns_draft-run_test =
    dns_draft-run edited
      (Event.fetched (state_of []) ∷ Event.save_clicked ∷ Event.answer_came Answer.broken ∷ []) refl
      (tt, (tt, (tt, tt)))

edited-IsTaken : IsTaken lib (web ∷ nas ∷ [])
unfolding record_valid ipv4 all
edited-IsTaken = refl

-- Another admin has removed the file, and the page has been told before the save.
save_records-fetched_example :
    (q : SaveRequest) × ((run edited (Event.fetched (state_of []) ∷ Event.save_clicked ∷ [])).sent
      ≡ q ∷ [])
    × (q.records ≡ web ∷ nas ∷ [])
    × (q.force ≡ false)
    × (q.expected_hash ≡ codes "#")
    × Replaces lib empty_server q (web ∷ nas ∷ [])
unfolding load
save_records-fetched_example =
    save_records-fetched lib empty_server (record { records = []; hash = codes "#" }) edited
      (state_of []) refl refl edited-IsValid edited-IsTaken refl refl refl refl refl

edited-save_enabled : save_enabled edited ≡ true
unfolding save_enabled text_eq
edited-save_enabled = refl

abbrev nas_state : State
nas_state = record { records = nas ∷ []; hash = codes "#nas" }

nas-load : load lib (content (codes "nas")) ≡ some nas_state
unfolding load trim text_eq is_space
nas-load = refl

-- Another admin has put another record into the file; by the time of the second save it is gone.
save_records-stale_example :
    let refused = Event.answer_came (Answer.refused (reply_status (conflicts nas_state))) in
    let c₁ = run edited (Event.save_clicked ∷ refused ∷ []) in
    (c₁.conflict ≡ true)
    × (c₁.draft ≡ web ∷ nas ∷ [])
    × (c₁.dirty ≡ true)
    × ((q r : SaveRequest) × (c₁.sent ≡ q ∷ [])
        × ((q.force ≡ false) × (q.expected_hash ≡ codes "#web"))
        × (save_records lib nas_server q ≡ (conflicts nas_state, nas_server))
        × ((step c₁ Event.overwrite_clicked).sent ≡ r ∷ q ∷ [])
        × (r.force ≡ true)
        × Replaces lib empty_server r (web ∷ nas ∷ []))
unfolding load
save_records-stale_example =
    save_records-stale lib nas_server empty_server nas_state
      (record { records = []; hash = codes "#" }) edited edited-save_enabled edited-IsTaken
      (λ e. ground arith) refl nas-load (λ e. ground arith) refl refl refl

-- A file that is not read is not replaced, not even by a forced request.
unread_test :
    save_records lib
      (server_of (content (codes "x")))
      (record { records = web ∷ []; expected_hash = []; force = true })
    ≡ (invalid, server_of (content (codes "x")))
unfolding save_records record_valid has_duplicate load trim text_eq is_space ipv4 all
unread_test = refl

draft-saved_test :
    ((step (record edited { pending = true }) (Event.answer_came Answer.saved)).draft ≡ web ∷ [])
    × ((step (record edited { pending = true }) (Event.answer_came Answer.saved)).dirty ≡ false)
draft-saved_test = draft-saved (record edited { pending = true }) (web ∷ []) refl refl
