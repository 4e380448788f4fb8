-- ===== src/Dns/Kept.antt =====
-- The edits of the card, over lists of events, and the draft where there are none.
use head_control.Common.{
  Bool, Option, true, false, none, some, List, [], ◌∷◌, ◌≡◌, refl, arith, All,
}
use head_control.Dns.{
  Card, DnsRecord, Event, Answer, handle, step, run, start, sync, sync_with, records_of, finish,
  do_save,
}

-- The events that neither edit the records nor end the edits.
abbrev pub Keeps : Event → Type 0
Keeps (Event.fetched d) = Unit
Keeps Event.save_clicked = Unit
Keeps Event.overwrite_clicked = Unit
Keeps Event.conflict_closed = Unit
Keeps (Event.answer_came (Answer.refused status)) = Unit
Keeps (Event.answer_came Answer.broken) = Unit
Keeps _ = ⊥

-- The draft is the user's.
abbrev Holds : List DnsRecord → Card → Type 0
Holds rs c = (c.draft ≡ rs) × (c.dirty ≡ true)

sync-Holds : (rs : List DnsRecord) (c : Card) → Holds rs c → Holds rs (sync c)
unfolding sync
sync-Holds rs c h = keep (records_of c.state) c.dirty h.1
  where
    keep : (o : Option (List DnsRecord)) (b : Bool) → b ≡ true → Holds rs (sync_with o b c)
    keep (some ss) true e = h
    keep (some ss) false e = absurd (ground arith)
    keep none b e = h

handle-Holds :
    (rs : List DnsRecord) (c : Card) (e : Event) → Keeps e → Holds rs c → Holds rs (handle c e)
unfolding handle do_save finish
handle-Holds rs c (Event.fetched d) k h = h
handle-Holds rs c Event.save_clicked k h = ground arith
handle-Holds rs c Event.overwrite_clicked k h = ground arith
handle-Holds rs c Event.conflict_closed k h = ground arith
handle-Holds rs c (Event.answer_came (Answer.refused status)) k h = ground arith
handle-Holds rs c (Event.answer_came Answer.broken) k h = ground arith
handle-Holds rs c (Event.answer_came Answer.saved) k h = absurd k
handle-Holds rs c Event.record_added k h = absurd k
handle-Holds rs c Event.reload_clicked k h = absurd k
handle-Holds rs c (Event.name_typed i t) k h = absurd k
handle-Holds rs c (Event.value_typed i t) k h = absurd k
handle-Holds rs c (Event.type_chosen i t) k h = absurd k
handle-Holds rs c (Event.record_deleted i) k h = absurd k

run-Holds :
    (rs : List DnsRecord) (c : Card) (es : List Event)
    → All Keeps es
    → Holds rs c
    → Holds rs (run c es)
unfolding run step
run-Holds rs c [] k h = h
run-Holds rs c (e ∷ es) k h =
    run-Holds rs (step c e) es k.1 (sync-Holds rs (handle c e) (handle-Holds rs c e k.0 h))

-- Edits that are not saved stay, and stay marked, through results of the query, presses of the
-- buttons that save, the closing of the dialog, and every save that fails or meets a conflict.
pub dns_draft-run :
    (c : Card) (es : List Event)
    → c.dirty ≡ true
    → All Keeps es
    → ((run c es).draft ≡ c.draft) × ((run c es).dirty ≡ true)
dns_draft-run c es d k = run-Holds c.draft c es k (refl, d)

-- Without edits the draft is what the query gave last.
abbrev pub IsSynced : Card → Type 0
IsSynced c = (rs : List DnsRecord) → c.dirty ≡ false → records_of c.state ≡ some rs → c.draft ≡ rs

sync-IsSynced : (c : Card) → IsSynced (sync c)
unfolding sync
sync-IsSynced c = copied (records_of c.state) c.dirty refl refl
  where
    copied :
        (o : Option (List DnsRecord)) (b : Bool)
        → records_of c.state ≡ o
        → c.dirty ≡ b
        → IsSynced (sync_with o b c)
    copied (some ss) true e d = λ rs h g. absurd (ground arith)
    copied (some ss) false e d = λ rs h g. ground arith
    copied none b e d = λ rs h g. absurd (ground arith)

run-IsSynced_from : (c : Card) (es : List Event) → IsSynced c → IsSynced (run c es)
unfolding run step
run-IsSynced_from c [] h = h
run-IsSynced_from c (e ∷ es) h = run-IsSynced_from (step c e) es (sync-IsSynced (handle c e))

-- After any events the draft of a card without edits is what the query gave last; so the effect
-- that copies it would change nothing where it does not run.
pub run-IsSynced : (es : List Event) → IsSynced (run start es)
run-IsSynced es = run-IsSynced_from start es (λ rs h g. absurd (ground arith))
