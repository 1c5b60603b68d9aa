-- ===== src/Webhook/Notifier/Aggregation.antt =====
-- One event per link of a batch, with the number of its clicks.
use go_link_shortener.Base.{
  ==_refl, true, all, ◌&&◌, take-full, append-cons, append_nil, ℕ, suc, ◌+◌, ◌≡◌, ◌≤◌, refl, ap,
  sym, ◌∙◌, Bool, false, List, [], ◌∷◌, ◌++◌, length, take, length-append, take_all, count, any,
  ◌==◌, ltb, arith, if◌then◌else◌, Bool-cases, inl, inr,
}
use go_link_shortener.Store.Db.{Click}
use go_link_shortener.Webhook.Dispatcher.{Event, Dispatcher, dispatch}
use go_link_shortener.Webhook.Notifier.{
  clicked_link, link_clicked, Notifier, Agg, add_click, aggregate_from, clicked_event, dispatch_all,
  clicks_flushed,
}

-- the total under a link
abbrev pub total_of : ℕ → List Agg → ℕ
total_of id [] = 0
total_of id (a ∷ rows) = (if a.link_id == id then a.total else 0) + total_of id rows

abbrev pub is_of : ℕ → Agg → Bool
is_of id a = a.link_id == id

abbrev pub LinksDistinct : List Agg → Type 0
LinksDistinct [] = Unit
LinksDistinct (a ∷ rows) = (any (is_of a.link_id) rows ≡ false) × LinksDistinct rows

total_of-add_click :
    (id : ℕ) (c : Click) (rows : List Agg)
    → total_of id (add_click c rows) ≡ (if c.link_id == id then 1 else 0) + total_of id rows
unfolding add_click
total_of-add_click id c [] = ground arith
total_of-add_click id c (a ∷ rows) = ground (arith, total_of-add_click id c rows)

any-add_click :
    (id : ℕ) (c : Click) (rows : List Agg)
    → (c.link_id == id) ≡ false
    → any (is_of id) rows ≡ false
    → any (is_of id) (add_click c rows) ≡ false
unfolding add_click
any-add_click id c [] d h = ground arith
any-add_click id c (a ∷ rows) d h = ground (arith, any-add_click id c rows)

add_click-LinksDistinct :
    (c : Click) (rows : List Agg) → LinksDistinct rows → LinksDistinct (add_click c rows)
unfolding add_click
add_click-LinksDistinct c [] h = (refl, tt)
add_click-LinksDistinct c (a ∷ rows) h =
    ground (arith, add_click-LinksDistinct c rows, any-add_click a.link_id c rows)

total_of-aggregate_from :
    (id : ℕ) (rows : List Agg) (cs : List Click)
    → total_of id (aggregate_from rows cs) ≡ total_of id rows + count (λ c. c.link_id == id) cs
unfolding aggregate_from
total_of-aggregate_from id rows [] = omega arith
total_of-aggregate_from id rows (c ∷ cs) =
    omega (arith, total_of-aggregate_from id (add_click c rows) cs, total_of-add_click id c rows)

aggregate_from-LinksDistinct :
    (rows : List Agg) (cs : List Click)
    → LinksDistinct rows
    → LinksDistinct (aggregate_from rows cs)
unfolding aggregate_from
aggregate_from-LinksDistinct rows [] h = h
aggregate_from-LinksDistinct rows (c ∷ cs) h =
    aggregate_from-LinksDistinct (add_click c rows) cs (add_click-LinksDistinct c rows h)

-- a click of the link and the tenant
abbrev pub is_click_of : ℕ → ℕ → Click → Bool
is_click_of link tenant c = c.link_id == link && c.tenant_id == tenant

-- What holds of the link and tenant of every click holds of those of every aggregate.
module _ (p : ℕ → ℕ → Bool) where
  abbrev row_holds : Agg → Bool
  row_holds a = p a.link_id a.tenant_id

  all-add_click :
      (c : Click) (rows : List Agg)
      → p c.link_id c.tenant_id ≡ true
      → all row_holds rows ≡ true
      → all row_holds (add_click c rows) ≡ true
  unfolding add_click
  all-add_click c [] h k = ground arith
  all-add_click c (a ∷ rows) h k = ground (arith, all-add_click c rows)

  all-aggregate_from :
      (rows : List Agg) (cs : List Click)
      → all (λ c. p c.link_id c.tenant_id) cs ≡ true
      → all row_holds rows ≡ true
      → all row_holds (aggregate_from rows cs) ≡ true
  unfolding aggregate_from
  all-aggregate_from rows [] h k = k
  all-aggregate_from rows (c ∷ cs) h k =
      all-aggregate_from (add_click c rows) cs (ground arith)
        (all-add_click c rows (ground arith) k)

all-later :
    (c : Click) (cs ds : List Click)
    → all (λ d. any (is_click_of d.link_id d.tenant_id) cs) ds ≡ true
    → all (λ d. any (is_click_of d.link_id d.tenant_id) (c ∷ cs)) ds ≡ true
all-later c cs [] h = refl
all-later c cs (d ∷ ds) h = ground (arith, all-later c cs ds)

all-own : (cs : List Click) → all (λ d. any (is_click_of d.link_id d.tenant_id) cs) cs ≡ true
all-own [] = refl
all-own (c ∷ cs) =
    ground (arith, ==_refl c.link_id, ==_refl c.tenant_id, all-later c cs cs, all-own cs)

clicks_flushed-all :
    (n : Notifier) (cs : List Click) (d : Dispatcher)
    → clicks_flushed n cs d ≡ dispatch_all n 0 (aggregate_from [] cs) d
unfolding clicks_flushed aggregate_from dispatch_all
clicks_flushed-all n [] d = refl
clicks_flushed-all n (c ∷ cs) d = refl

-- the event of each row: of its link, tenant and total, stamped in turn
abbrev pub events_of : Notifier → ℕ → List Agg → List Event
events_of n k [] = []
events_of n k (a ∷ rows) =
    record {
      id = n.ids k;
      event_type = link_clicked;
      tenant_id = a.tenant_id;
      occurred_at = n.times k;
      body = n.encode (clicked_link a.link_id a.total);
    }
    ∷ events_of n (suc k) rows

dispatch_all-take :
    (n : Notifier) (k : ℕ) (rows : List Agg) (d : Dispatcher)
    → d.quit ≡ false
    → length d.events ≤ d.queue_size
    → (dispatch_all n k rows d).events ≡ take d.queue_size (d.events ++ events_of n k rows)
unfolding dispatch_all dispatch clicked_event
dispatch_all-take n k [] d running room =
    sym
      (ap (take d.queue_size) (append_nil d.events) ∙ take_all d.queue_size d.events (omega arith))
dispatch_all-take n k (a ∷ rows) d running room =
    elim (Bool-cases (ltb (length d.events) d.queue_size)) [
      | inl free ↦ ground (
        arith,
        append-cons d.events (events_of n (suc k) rows) (clicked_event n k a),
        length-append d.events (clicked_event n k a ∷ []),
        dispatch_all-take n (suc k) rows
            (record d { events = d.events ++ (clicked_event n k a ∷ []) }),
      )
      | inr full ↦ ground (
        arith,
        take-full d.queue_size d.events (events_of n (suc k) rows),
        take-full d.queue_size d.events (events_of n k (a ∷ rows)),
        dispatch_all-take n (suc k) rows (record d { dropped = suc d.dropped }),
      )
    ]

-- While the dispatcher runs, a flushed batch queues one event of type link.clicked per link, as far as
-- the queue has room, each with the id and the time that Dispatch stamps it with, and with the link,
-- its tenant and a total; the links are distinct, some click of the batch has the link and the tenant,
-- and the total of every link is the number of its clicks in the batch.
pub clicks_flushed-aggregates :
    (n : Notifier) (cs : List Click) (d : Dispatcher)
    → d.quit ≡ false
    → length d.events ≤ d.queue_size
    → (rows : List Agg) × ((clicks_flushed n cs d).events
        ≡ take d.queue_size (d.events ++ events_of n 0 rows))
      × LinksDistinct rows
      × (all (λ a. any (is_click_of a.link_id a.tenant_id) cs) rows ≡ true)
      × ((id : ℕ) → total_of id rows ≡ count (λ c. c.link_id == id) cs)
clicks_flushed-aggregates n cs d running room = (
  aggregate_from [] cs,
  ap (λ p. p.events) (clicks_flushed-all n cs d)
      ∙ dispatch_all-take n 0 (aggregate_from [] cs) d running room,
  aggregate_from-LinksDistinct [] cs tt,
  all-aggregate_from (λ link tenant. any (is_click_of link tenant) cs) [] cs (all-own cs) refl,
  λ id. omega (arith, total_of-aggregate_from id [] cs),
)
