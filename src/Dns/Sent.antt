-- ===== src/Dns/Sent.antt =====
-- What the card sends, over every list of events, and the draft of a card without edits.
use head_control.Common.{
  Bool-cases, Bool, Option, true, false, none, some, List, [], ◌∷◌, ◌≡◌, refl, arith, All, ◌⊎◌, inl,
  inr, ◌&&◌, not, if◌then◌else◌,
}
use head_control.Dns.{
  Card, DnsRecord, SaveRequest, Event, Answer, handle, step, run, sync, sync_with, records_of,
  request, dialog_shown, save_enabled, do_save, finish,
}
use head_control.Dns.Valid.{IsValid, save_enabled_iff}

-- A request either forces the save, or carries valid records.
abbrev pub IsChecked : SaveRequest → Type 0
IsChecked q = (q.force ≡ true) ⊎ IsValid q.records

sent-sync_with :
    (o : Option (List DnsRecord)) (b : Bool) (c : Card) → (sync_with o b c).sent ≡ c.sent
sent-sync_with (some rs) false c = refl
sent-sync_with (some rs) true c = refl
sent-sync_with none b c = refl

pub sent-step : (c : Card) (e : Event) → (step c e).sent ≡ (handle c e).sent
unfolding step sync
sent-step c e = sent-sync_with (records_of (handle c e).state) (handle c e).dirty (handle c e)

sent-finish : (r : Answer) (c : Card) → (finish r c).sent ≡ c.sent
unfolding finish
sent-finish Answer.saved c = refl
sent-finish (Answer.refused status) c = ground arith
sent-finish Answer.broken c = refl

-- The two buttons are the only events that send.
abbrev requests_after : Card → Event → List SaveRequest
requests_after c Event.save_clicked = if save_enabled c then request false c ∷ c.sent else c.sent
requests_after c Event.overwrite_clicked =
    if dialog_shown c && not c.pending then request true c ∷ c.sent else c.sent
requests_after c e = c.sent

sent-handle : (c : Card) (e : Event) → (handle c e).sent ≡ requests_after c e
unfolding handle do_save
sent-handle c (Event.fetched d) = refl
sent-handle c (Event.answer_came r) = ground (arith, sent-finish r c)
sent-handle c Event.save_clicked = ground arith
sent-handle c Event.overwrite_clicked = ground arith
sent-handle c e = ground arith

requests_after-IsChecked :
    (c : Card) (e : Event) → All IsChecked c.sent → All IsChecked (requests_after c e)
requests_after-IsChecked c Event.save_clicked h = elim (Bool-cases (save_enabled c)) [
  | inl e ↦ rw e (inr ((save_enabled_iff c).0 e).3, h)
  | inr e ↦ rw e h
]
requests_after-IsChecked c Event.overwrite_clicked h =
    elim (Bool-cases (dialog_shown c && not c.pending)) [
      | inl e ↦ rw e (inl refl, h)
      | inr e ↦ rw e h
    ]
requests_after-IsChecked c e h = h

-- Every request of the card carries records that pass its check, no two of one name and type, or
-- was made by the button that overwrites; whatever the user does and the query and the saves
-- answer, in any order.
pub run-IsChecked :
    (c : Card) (es : List Event) → All IsChecked c.sent → All IsChecked (run c es).sent
unfolding run
run-IsChecked c [] h = h
run-IsChecked c (e ∷ es) h =
    run-IsChecked (step c e) es
      (rw (sent-step c e, sent-handle c e) (requests_after-IsChecked c e h))
