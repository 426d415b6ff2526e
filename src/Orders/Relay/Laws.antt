-- ===== src/Orders/Relay/Laws.antt =====
-- What the relay of order-service/src/modules/outbox/outbox.service.ts publishes and marks.
use ecommerce_microservices.Common.{
  ℕ, String, true, not, ◌≡◌, refl, sym, inl, inr, List, [], ◌∷◌, ◌++◌, ◌==◌, ◌||◌, eq_iff, Some,
  Some-append_left, Some-append_right, All, All-map, All-zip, All-take, All-filter,
  All-update_where, IsKeyed, IsOnly, IsKeyed-IsOnly, Bool-cases, subst, update_where,
}
use ecommerce_microservices.Common.Sort.{order_by-All}
use ecommerce_microservices.Orders.Entities.{Outbox, OutboxStatus}
use ecommerce_microservices.Orders.Relay.{
  KafkaMessage, Poll, Relay, message_of, is_pending, fetch_pending, sent, unsent, published,
  mark_sent, mark_failed, give_up, process_entry, process_entries, poll_outbox,
}

-- A message that carries the event of the row, under the row's own identifier of the event.
abbrev pub Carries : Outbox → KafkaMessage → Type 0
Carries r m =
    (m.key ≡ r.aggregate_id)
    × (m.event_id ≡ r.event_id)
    × (m.event_type ≡ r.event_type)
    × (m.payload ≡ r.payload)

abbrev pub IsDelivered : List KafkaMessage → Outbox → Type 0
IsDelivered messages r = r.status ≡ OutboxStatus.sent → Some (Carries r) messages

-- A row with the identifier of the entry has the entry's event.
abbrev pub Agrees : Outbox → Outbox → Type 0
Agrees entry r = (r.id == entry.id) ≡ true → Carries r (message_of entry)

-- Of a row, while the entries are still to be processed.
abbrev Good : List KafkaMessage → List Outbox → Outbox → Type 0
Good messages entries r = IsDelivered messages r × All (λ e. Agrees e r) entries

publish-Good :
    (messages : List KafkaMessage) (m : KafkaMessage) (entries : List Outbox) (rows : List Outbox)
    → All (Good messages entries) rows
    → All (Good (messages ++ m ∷ []) entries) rows
publish-Good messages m entries rows h =
    All-map (Good messages entries) (Good (messages ++ m ∷ []) entries) rows
      (λ r (d, a). ((λ e. Some-append_left (Carries r) messages (m ∷ []) (d e)), a)) h

unsent-Good :
    (messages : List KafkaMessage) (entries rows : List Outbox) (id : String)
    → All (Good messages entries) rows
    → All (Good messages entries) (update_where (λ r. r.id == id) unsent rows)
unfolding message_of
unsent-Good messages entries rows id h =
    All-update_where (Good messages entries) (Good messages entries) (λ r. r.id == id) unsent rows
      (λ r e good. good) (λ r e good. good) h

sent-Good :
    (messages : List KafkaMessage) (now : ℕ) (entry : Outbox) (entries rows : List Outbox)
    → All (Good messages (entry ∷ entries)) rows
    → All
        (Good (messages ++ message_of entry ∷ []) entries)
        (update_where (λ r. r.id == entry.id) (sent now) rows)
unfolding message_of
sent-Good messages now entry entries rows h =
    All-update_where (Good messages (entry ∷ entries))
      (Good (messages ++ message_of entry ∷ []) entries) (λ r. r.id == entry.id) (sent now) rows
      (λ r hit (d, a). (
        (λ e. Some-append_right (Carries r) messages (message_of entry ∷ []) (inl (a.0 hit))),
        a.1,
      ))
      (λ r miss (d, a).
        ((λ e. Some-append_left (Carries r) messages (message_of entry ∷ []) (d e)), a.1))
      h

tail-Good :
    (messages : List KafkaMessage) (entry : Outbox) (entries rows : List Outbox)
    → All (Good messages (entry ∷ entries)) rows
    → All (Good messages entries) rows
tail-Good messages entry entries rows h =
    All-map (Good messages (entry ∷ entries)) (Good messages entries) rows (λ r (d, a). (d, a.1)) h

abbrev IsGood : List Outbox → Relay → Type 0
IsGood entries s = All (Good s.published entries) s.rows

give_up-IsGood :
    (poll : Poll) (entry : Outbox) (entries : List Outbox) (s : Relay)
    → IsGood entries s
    → IsGood entries (give_up poll entry s).1
unfolding give_up mark_failed
give_up-IsGood poll entry entries s h = elim (Bool-cases (poll.failed_saved entry)) [
  | inl saved ↦ rw (saved, give_up) (unsent-Good s.published entries s.rows entry.id h)
  | inr failed ↦ rw (failed, give_up) h
]

process_entry-IsGood :
    (poll : Poll) (entry : Outbox) (entries : List Outbox) (s : Relay)
    → IsGood (entry ∷ entries) s
    → IsGood entries (process_entry poll entry s).1
unfolding process_entry mark_sent
process_entry-IsGood poll entry entries s h =
    let rest = tail-Good s.published entry entries s.rows h in
    let out = publish-Good s.published (message_of entry) entries s.rows rest in
    elim (Bool-cases (poll.publishes (message_of entry))) [
      | inr refused ↦ rw (refused, process_entry) (give_up-IsGood poll entry entries s rest)
      | inl taken ↦ elim (Bool-cases (poll.sent_saved entry)) [
        | inl saved ↦
            rw (taken, process_entry, saved) (sent-Good s.published poll.now entry entries s.rows h)
        | inr failed ↦
            rw (taken, process_entry, failed)
              (give_up-IsGood poll entry entries (published (message_of entry) s) out)
      ]
    ]

process_entries-IsGood :
    (poll : Poll) (entries : List Outbox) (s : Relay)
    → IsGood entries s
    → IsGood [] (process_entries poll entries s)
unfolding process_entries
process_entries-IsGood poll [] s h = h
process_entries-IsGood poll (entry ∷ entries) s h =
    let next = process_entry-IsGood poll entry entries s h in
    elim (Bool-cases (process_entry poll entry s).0) [
      | inl on ↦
          rw (on, process_entries)
            (process_entries-IsGood poll entries (process_entry poll entry s).1 next)
      | inr over ↦
          rw (over, process_entries)
            (All-map (Good (process_entry poll entry s).1.published entries)
              (Good (process_entry poll entry s).1.published []) _ (λ r (d, a). (d, tt)) next)
    ]

fetch_pending-All :
    (P : Outbox → Type 0) (n : ℕ) (rows : List Outbox) → All P rows → All P (fetch_pending n rows)
unfolding fetch_pending
fetch_pending-All P n rows h =
    All-take P n _ (order_by-All _ P _ (All-filter P (λ r. is_pending r.status) rows h))

only-Agrees :
    (rows : List Outbox) (n : ℕ) (r : Outbox)
    → IsOnly (λ q. q.id) rows r
    → All (λ e. Agrees e r) (fetch_pending n rows)
unfolding message_of
only-Agrees rows n r only =
    fetch_pending-All (λ e. Agrees e r) n rows
      (All-map _ (λ e. Agrees e r) rows
        (λ e same hit.
          subst (λ x. Carries r (message_of x))
            (sym (same ((eq_iff e.id r.id).1 (sym ((eq_iff r.id e.id).0 hit)))))
            (refl, refl, refl, refl))
        only)

-- If the identifiers of the rows are distinct and the event of every row that is marked as sent
-- has been published under the row's own identifier, this is so after a poll too, whatever the
-- producer refuses and whichever query fails.
pub published_before_sent :
    (poll : Poll) (s : Relay)
    → IsKeyed (λ r. r.id) s.rows
    → All (IsDelivered s.published) s.rows
    → let s' = poll_outbox poll s in All (IsDelivered s'.published) s'.rows
unfolding poll_outbox
published_before_sent poll s keyed h =
    let batch = fetch_pending 50 s.rows in
    let good : IsGood batch s =
      All-map (λ r. IsOnly (λ q. q.id) s.rows r × IsDelivered s.published r)
        (Good s.published batch) s.rows (λ r (only, d). (d, only-Agrees s.rows 50 r only))
        (All-zip (IsOnly (λ q. q.id) s.rows) (IsDelivered s.published) s.rows
          (IsKeyed-IsOnly (λ q. q.id) s.rows keyed) h) in
    elim (Bool-cases (s.is_running || s.is_shutting_down || not poll.fetched)) [
      | inl idle ↦ rw (idle, poll_outbox) h
      | inr busy ↦
          rw (busy, poll_outbox)
            (All-map (Good (process_entries poll batch s).published [])
              (IsDelivered (process_entries poll batch s).published) _ (λ r (d, _). d)
              (process_entries-IsGood poll batch s good))
    ]
