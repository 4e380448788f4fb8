-- ===== src/Dns/Stale.antt =====
-- The card together with the backend: a save that is made from an older state of the file.
use head_control.Common.{
  if◌then◌else◌, not, Bool, Option, true, false, none, some, List, [], ◌∷◌, ◌≡◌, ◌≢◌, refl, arith,
  ◌∙◌, ap, ◌&&◌,
}
use head_control.Text.{Text}
use head_control.Text.Equal.{text_eq_iff, text_eq_refl}
use head_control.Dns.{
  Card, DnsRecord, DnsState, SaveRequest, Event, Answer, handle, step, run, sync, sync_with,
  records_of, finish, do_save, dialog_shown, save_enabled, request, is_enabled, is_writable,
  hash_of,
}
use head_control.Dns.Valid.{IsValid, save_enabled_iff}
use head_control.Dns.Server.{
  Library, Server, State, reply_status, saved, conflicts, content, load, accepts, saved_state,
  file_text, save_records,
}
use head_control.Dns.Taken.{IsTaken, save_records-saved, save_records-conflicts}

sync_dirty : (c : Card) → c.dirty ≡ true → sync c ≡ c
unfolding sync
sync_dirty c h = same (records_of c.state) c.dirty h
  where
    same : (o : Option (List DnsRecord)) (b : Bool) → b ≡ true → sync_with o b c ≡ c
    same (some rs) true e = refl
    same (some rs) false e = absurd (ground arith)
    same none b e = refl

fetched_dirty :
    (c : Card) (d : DnsState)
    → c.dirty ≡ true
    → step c (Event.fetched d) ≡ record c { state = some d }
unfolding step handle
fetched_dirty c d h = sync_dirty (record c { state = some d }) h

clicked : (c : Card) → save_enabled c ≡ true → step c Event.save_clicked ≡ do_save false c
unfolding step handle do_save
clicked c h =
    ap sync {x = if save_enabled c then do_save false c else c} {y = do_save false c} (rw h)
    ∙ sync_dirty (do_save false c) ((save_enabled_iff c).0 h).0

refused_409 :
    (c : Card)
    → c.dirty ≡ true
    → c.pending ≡ true
    → step c (Event.answer_came (Answer.refused 409))
      ≡ record c { conflict = true; pending = false }
unfolding step handle finish
refused_409 c d p =
    let c' : Card = record c { conflict = true; pending = false } in
    ap sync {x = if c.pending then c' else c} {y = c'} (rw p) ∙ sync_dirty c' d

enabled_of_writable : (o : Option DnsState) → is_writable o ≡ true → is_enabled o ≡ true
enabled_of_writable none h = h
enabled_of_writable (some d) h = ground arith

overwritten :
    (c : Card)
    → c.dirty ≡ true
    → is_writable c.state ≡ true
    → c.conflict ≡ true
    → c.pending ≡ false
    → step c Event.overwrite_clicked ≡ do_save true c
unfolding step handle do_save
overwritten c d w k p =
    let shown : (dialog_shown c && not c.pending) ≡ true =
      ground (arith, enabled_of_writable c.state w) in
    ap sync {x = if dialog_shown c && not c.pending then do_save true c else c} {y = do_save true c}
      (rw shown)
    ∙ sync_dirty (do_save true c) d

accepts_own :
    (h : Text) (rs : List DnsRecord)
    → accepts (record { records = rs; expected_hash = h; force = false }) h ≡ true
accepts_own h rs = ground (arith, text_eq_refl h)

accepts_other :
    (h : Text) (q : SaveRequest)
    → q.force ≡ false
    → q.expected_hash ≢ []
    → h ≢ q.expected_hash
    → accepts q h ≡ false
accepts_other h q f e n =
    ground (arith, text_eq_iff q.expected_hash [], text_eq_iff h q.expected_hash)

-- The backend takes the request and replaces the file by the records, sorted.
abbrev pub Replaces : Library → Server → SaveRequest → List DnsRecord → Type 0
Replaces lib s q rs =
    save_records lib s q
    ≡ (saved (saved_state lib rs), record s { file = content (file_text lib rs) })

module _ (lib : Library) where
  -- A save that follows a result of the query sends the older draft, not forced, with the hash of
  -- that result; so where that is the hash of the file by then, the backend takes the request and
  -- replaces the file by the draft, although the user has not seen what is in the file. The draft
  -- has edits, its records are valid on both sides, the page may write and no save is under way;
  -- and the backend has the records enabled and can read and replace the file.
  pub save_records-fetched :
      (server : Server) (current : State) (c : Card) (d : DnsState)
      → c.dirty ≡ true
      → c.pending ≡ false
      → IsValid c.draft
      → IsTaken lib c.draft
      → (d.records_enabled && d.records_writable) ≡ true
      → server.enabled ≡ true
      → server.replaceable ≡ true
      → load lib server.file ≡ some current
      → d.records_hash ≡ some current.hash
      → (q : SaveRequest) × ((run c (Event.fetched d ∷ Event.save_clicked ∷ [])).sent ≡ q ∷ c.sent)
        × (q.records ≡ c.draft)
        × (q.force ≡ false)
        × (q.expected_hash ≡ current.hash)
        × Replaces lib server q c.draft
  unfolding run do_save
  save_records-fetched server current c d dirty idle valid taken w on writes l h =
      let c' : Card = record c { state = some d } in
      let enabled = (save_enabled_iff c').1 (dirty, w, idle, valid) in
      (
        request false c',
        rw (fetched_dirty c d dirty) (rw (clicked c' enabled) refl),
        refl,
        refl,
        rw h refl,
        save_records-saved lib server (request false c') current on taken (valid.1) l
            (rw h (accepts_own current.hash c.draft)) writes,
      )

  -- A save that is made from a file that has changed since is not forced and has the hash that the
  -- page knows; it meets a conflict, which gives the state of the file, and changes nothing. The
  -- answer opens the dialog and leaves the edits; and the button that overwrites then sends them as
  -- a forced request, by which the backend replaces the file, whatever records are in it by then.
  -- The backend refuses none of the records, the page has a hash, the backend has the records
  -- enabled and can read the file at both times, and can replace it at the later one.
  pub save_records-stale :
      (server later : Server) (current newest : State) (c : Card)
      → save_enabled c ≡ true
      → IsTaken lib c.draft
      → hash_of c.state ≢ []
      → server.enabled ≡ true
      → load lib server.file ≡ some current
      → current.hash ≢ hash_of c.state
      → later.enabled ≡ true
      → later.replaceable ≡ true
      → load lib later.file ≡ some newest
      → let refused = Event.answer_came (Answer.refused (reply_status (conflicts current))) in
        let c₁ = run c (Event.save_clicked ∷ refused ∷ []) in
        (c₁.conflict ≡ true)
        × (c₁.draft ≡ c.draft)
        × (c₁.dirty ≡ true)
        × ((q r : SaveRequest) × (c₁.sent ≡ q ∷ c.sent)
            × ((q.force ≡ false) × (q.expected_hash ≡ hash_of c.state))
            × (save_records lib server q ≡ (conflicts current, server))
            × ((step c₁ Event.overwrite_clicked).sent ≡ r ∷ q ∷ c.sent)
            × (r.force ≡ true)
            × Replaces lib later r c.draft)
  unfolding run do_save
  save_records-stale server later current newest c e taken known on l stale on' writes l' =
      let is_on = (save_enabled_iff c).0 e in
      let sent : Card = do_save false c in
      let back : Card = record sent { conflict = true; pending = false } in
      let q = request false c in
      let r = request true c in
      let path =
        ap (λ (k : Card). step k (Event.answer_came (Answer.refused 409))) (clicked c e)
        ∙ refused_409 sent (is_on.0) refl in
      rw path (
        refl,
        refl,
        is_on.0,
        (
          q,
          r,
          refl,
          (refl, refl),
          save_records-conflicts lib server q current on taken (is_on.3.1) l
              (accepts_other current.hash q refl known stale),
          rw (overwritten back (is_on.0) (is_on.1) refl refl) refl,
          refl,
          save_records-saved lib later r newest on' taken (is_on.3.1) l' refl writes,
        ),
      )

-- The answer that a save has succeeded puts what the query gave last in place of the draft; edits
-- that were made while the save was under way are gone.
pub draft-saved :
    (c : Card) (rs : List DnsRecord)
    → c.pending ≡ true
    → records_of c.state ≡ some rs
    → ((step c (Event.answer_came Answer.saved)).draft ≡ rs)
      × ((step c (Event.answer_came Answer.saved)).dirty ≡ false)
unfolding step handle sync finish
draft-saved c rs p h = taken c.pending p
  where
    taken :
        (b : Bool)
        → b ≡ true
        → ((sync (if b then finish Answer.saved c else c)).draft ≡ rs)
          × ((sync (if b then finish Answer.saved c else c)).dirty ≡ false)
    taken true e = rw h (refl, refl)
    taken false e = absurd (ground arith)
