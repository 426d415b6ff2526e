-- ===== src/Orders/Relay/Draining.antt =====
-- How polls of order-service/src/modules/outbox/outbox.service.ts empty the outbox.
use ecommerce_microservices.Common.{
  ℕ, zero, suc, ◌-◌, ◌*◌, ◌≤◌, Bool, true, false, not, ◌≡◌, refl, sym, ap, ◌∙◌, inl, inr, List, [],
  ◌∷◌, arith, ◌==◌, ◌||◌, eq_refl, Some, All, All-map, All-zip, All-self, All-update_where, IsKeyed,
  Bool-cases, subst, update_where, length, filter, take, any, false≢true, leb, if◌then◌else◌,
}
use ecommerce_microservices.Common.Sort.{order_by, length-order_by, length-filter-order_by}
use ecommerce_microservices.Orders.Entities.{Outbox, OutboxStatus}
use ecommerce_microservices.Orders.Relay.{
  Poll, Relay, message_of, is_pending, fetch_pending, sent, published, mark_sent, process_entry,
  process_entries, poll_outbox,
}
use ecommerce_microservices.Orders.Relay.Laws.{Carries, IsDelivered, published_before_sent}

-- Kafka takes every message, and the queries go through.
abbrev pub IsHealthy : Poll → Type 0
IsHealthy poll =
    (poll.fetched ≡ true)
    × ((entry : Outbox)
        → (poll.publishes (message_of entry) ≡ true) × (poll.sent_saved entry ≡ true))

pub poll_all : List Poll → Relay → Relay
poll_all [] s = s
poll_all (poll ∷ polls) s = poll_all polls (poll_outbox poll s)

abbrev pub pending : List Outbox → List Outbox
pending rows = filter (λ r. is_pending r.status) rows

-- The rows that are not among the entries.
abbrev others : List Outbox → List Outbox → List Outbox
others entries rows = filter (λ r. not (any (λ e. r.id == e.id) entries)) rows

marked : ℕ → List Outbox → List Outbox → List Outbox
marked now [] rows = rows
marked now (e ∷ entries) rows =
    marked now entries (update_where (λ r. r.id == e.id) (sent now) rows)

-- A healthy poll marks every entry of its batch.
process_entries-marked :
    (poll : Poll) (entries : List Outbox) (s : Relay)
    → IsHealthy poll
    → ((process_entries poll entries s).rows ≡ marked poll.now entries s.rows)
      × ((process_entries poll entries s).is_running ≡ s.is_running)
      × ((process_entries poll entries s).is_shutting_down ≡ s.is_shutting_down)
unfolding process_entries process_entry mark_sent marked
process_entries-marked poll [] s healthy = (refl, refl, refl)
process_entries-marked poll (e ∷ entries) s healthy =
    let (takes, saves) = healthy.1 e in
    let next : Relay = mark_sent poll.now e.id (published (message_of e) s) in
    let rest = process_entries-marked poll entries next healthy in ground arith

mark-others :
    (now : ℕ) (e : Outbox) (entries rows : List Outbox)
    → length (others entries (pending (update_where (λ r. r.id == e.id) (sent now) rows)))
      ≤ length (others (e ∷ entries) (pending rows))
mark-others now e entries [] = omega arith
mark-others now e entries (r ∷ rows) = ground (arith, mark-others now e entries rows)

marked-others :
    (now : ℕ) (entries rows : List Outbox)
    → length (pending (marked now entries rows)) ≤ length (others entries (pending rows))
unfolding marked
marked-others now [] rows = ground (arith, everyone (pending rows))
  where
    everyone : (rs : List Outbox) → others [] rs ≡ rs
    everyone [] = refl
    everyone (r ∷ rs) = ap (λ l. r ∷ l) (everyone rs)
marked-others now (e ∷ entries) rows = omega (
  arith,
  marked-others now entries (update_where (λ r. r.id == e.id) (sent now) rows),
  mark-others now e entries rows,
)

length-others : (entries rows : List Outbox) → length (others entries rows) ≤ length rows
length-others entries [] = omega arith
length-others entries (r ∷ rows) = ground (arith, length-others entries rows)

-- The first rows are among the entries.
others-taken :
    (n : ℕ) (entries rows : List Outbox)
    → All (λ r. any (λ e. r.id == e.id) entries ≡ true) (take n rows)
    → length (others entries rows) ≤ length rows - n
others-taken zero entries rows h = ground (arith, length-others entries rows)
others-taken (suc n) entries [] h = omega arith
others-taken (suc n) entries (r ∷ rows) (known, h) = ground (arith, others-taken n entries rows h)

among :
    (r : Outbox) (entries : List Outbox)
    → Some (λ e. e ≡ r) entries
    → any (λ e. r.id == e.id) entries ≡ true
among r [] nowhere = absurd nowhere
among r (e ∷ entries) (inl same) =
    let own : (r.id == e.id) ≡ true = ap (λ x. r.id == x.id) same ∙ eq_refl r.id in ground arith
among r (e ∷ entries) (inr there) = ground (arith, among r entries there)

poll_outbox-pending :
    (poll : Poll) (s : Relay)
    → IsHealthy poll
    → s.is_running ≡ false
    → s.is_shutting_down ≡ false
    → (length (pending (poll_outbox poll s).rows) ≤ length (pending s.rows) - 50)
      × ((poll_outbox poll s).is_running ≡ false)
      × ((poll_outbox poll s).is_shutting_down ≡ false)
unfolding poll_outbox fetch_pending
poll_outbox-pending poll s healthy idle up =
    let before : Outbox → Outbox → Bool = λ a b. leb a.created_at b.created_at in
    let queue = order_by before (pending s.rows) in
    let batch = fetch_pending 50 s.rows in
    let run : poll_outbox poll s ≡ process_entries poll batch s = ground (arith, healthy.0) in
    let (rows, still, open_still) = process_entries-marked poll batch s healthy in
    let known =
      All-map _ (λ r. any (λ e. r.id == e.id) batch ≡ true) batch (λ r there. among r batch there)
        (All-self batch) in
    let sorted =
      length-filter-order_by before (λ r. not (any (λ e. r.id == e.id) batch)) (pending s.rows) in
    let counted : length (pending (poll_outbox poll s).rows)
        ≡ length (pending (marked poll.now batch s.rows)) =
      ap (λ t. length (pending t.rows)) run ∙ ap (λ rs. length (pending rs)) rows in
    (
      omega (
        arith,
        marked-others poll.now batch s.rows,
        sorted,
        others-taken 50 batch queue known,
        length-order_by before (pending s.rows),
      ),
      ap (λ t. t.is_running) run ∙ still ∙ idle,
      ap (λ t. t.is_shutting_down) run ∙ open_still ∙ up,
    )

none_pending :
    (rows : List Outbox) → length (pending rows) ≤ 0 → All (λ r. r.status ≡ OutboxStatus.sent) rows
none_pending [] h = tt
none_pending (r ∷ rows) h = (status_lem r.status (ground arith), none_pending rows (ground arith))
  where
    status_lem : (t : OutboxStatus) → is_pending t ≡ false → t ≡ OutboxStatus.sent
    status_lem OutboxStatus.pending e = absurd (false≢true (sym e))
    status_lem OutboxStatus.sent e = refl

-- The identifiers of the rows stay what they are.
keys_kept :
    (p : Outbox → Bool) (f : Outbox → Outbox) (rows : List Outbox)
    → ((r : Outbox) → (f r).id ≡ r.id)
    → IsKeyed (λ r. r.id) rows
    → IsKeyed (λ r. r.id) (update_where p f rows)
keys_kept p f [] same h = tt
keys_kept p f (r ∷ rows) same (fresh, h) =
    let own : (if p r then f r else r).id ≡ r.id = ground (arith, same r) in
    (
      All-update_where (λ q. (q.id == r.id) ≡ false)
          (λ q. (q.id == (if p r then f r else r).id) ≡ false) p f rows
          (λ q hit other. ground (arith, same q)) (λ q miss other. ground arith) fresh,
      keys_kept p f rows same h,
    )

marked-IsKeyed :
    (now : ℕ) (entries rows : List Outbox)
    → IsKeyed (λ r. r.id) rows
    → IsKeyed (λ r. r.id) (marked now entries rows)
unfolding marked
marked-IsKeyed now [] rows h = h
marked-IsKeyed now (e ∷ entries) rows h =
    marked-IsKeyed now entries (update_where (λ r. r.id == e.id) (sent now) rows)
      (keys_kept (λ r. r.id == e.id) (sent now) rows (λ r. refl) h)

poll_outbox-IsKeyed :
    (poll : Poll) (s : Relay)
    → IsHealthy poll
    → IsKeyed (λ r. r.id) s.rows
    → IsKeyed (λ r. r.id) (poll_outbox poll s).rows
unfolding poll_outbox
poll_outbox-IsKeyed poll s healthy h =
    elim (Bool-cases (s.is_running || s.is_shutting_down || not poll.fetched)) [
      | inl idle ↦ rw (idle, poll_outbox) h
      | inr busy ↦
          let batch = fetch_pending 50 s.rows in
          let (rows, _, _) = process_entries-marked poll batch s healthy in
          rw (busy, poll_outbox)
            (subst (IsKeyed (λ r. r.id)) (sym rows) (marked-IsKeyed poll.now batch s.rows h))
    ]

-- While Kafka takes every message and the queries go through, the outbox is emptied: after one poll
-- for every fifty pending rows, every row is marked as sent and its event has been published under
-- the row's own identifier. The relay is idle and not shutting down, the identifiers of the rows are
-- distinct, and of the rows that are marked as sent already the events have been published.
pub polls_drain :
    (polls : List Poll) (s : Relay)
    → All IsHealthy polls
    → s.is_running ≡ false
    → s.is_shutting_down ≡ false
    → IsKeyed (λ r. r.id) s.rows
    → All (IsDelivered s.published) s.rows
    → length (pending s.rows) ≤ 50 * length polls
    → let t = poll_all polls s in
      All (λ r. (r.status ≡ OutboxStatus.sent) × Some (Carries r) t.published) t.rows
unfolding poll_all
polls_drain [] s healthy idle up keyed delivered few =
    All-map (λ r. (r.status ≡ OutboxStatus.sent) × IsDelivered s.published r) _ s.rows
      (λ r (done, told). (done, told done))
      (All-zip (λ r. r.status ≡ OutboxStatus.sent) (IsDelivered s.published) s.rows
        (none_pending s.rows (omega arith)) delivered)
polls_drain (poll ∷ polls) s (first, healthy) idle up keyed delivered few =
    let (fewer, idle', up') = poll_outbox-pending poll s first idle up in
    polls_drain polls (poll_outbox poll s) healthy idle' up'
      (poll_outbox-IsKeyed poll s first keyed) (published_before_sent poll s keyed delivered)
      (omega arith)
