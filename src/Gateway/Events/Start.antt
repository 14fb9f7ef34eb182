-- ===== src/Gateway/Events/Start.antt =====
-- The start of a sale and what the handlers show of it.
use ticketer.Base.{
  ◌+ℤ◌, ◌⊎◌, inl, inr, Bool-cases, String, Bool, true, false, Option, none, some, ◌≡◌, refl, arith,
  ◌==◌, ℤ, pos, ◌-ℤ◌, ◌≤ℤ◌, ◌<ℤ◌, ltb_ℤ, IsInt64, wrap64, wrap64_small, int_laws, ok, if◌then◌else◌,
  suc,
}
use ticketer.Shared.Events.{inventory_key, user_lock_key}
use ticketer.Shared.Events.Keys.{inventory_key-eqb}
use ticketer.Shared.Config.{Config}
use ticketer.Platform.Redis.{IsRedis, Value, int, text, counter}
use ticketer.Platform.Env.{Env, IsOnline, delivered}
use ticketer.Platform.Action.{World}
use ticketer.Gateway.Http.{Response, event, already_started, started}
use ticketer.Gateway.Gatekeeper.{read_inventory, get_inventory, init_inventory}
use ticketer.Gateway.Gatekeeper.Reserve.{Sale, Shows, inventory-ne-lock}
use ticketer.Gateway.Events.{get_event_by_id, start_flash_sale, start_unless}

-- The number of tickets of one event, with every lock as it was.
unfoldable pub restock : String → ℤ → Sale → Sale
restock id total sale = record sale { left = λ v. if id == v then total else sale.left v }

counted : (o : Option Value) (n : ℤ) → counter o ≡ some n → read_inventory (ok o) ≡ ok n
counted none n h = cc
counted (some (int m)) n h = cc
counted (some (text t)) n h = cc

restock-counter :
    (b : Bool) (total n : ℤ) (o : Option Value)
    → counter o ≡ some n
    → counter (if b then some (int total) else o) ≡ some (if b then total else n)
restock-counter true total n o h = refl
restock-counter false total n o h = h

module _ (e : Env) (id : String) (sale : Sale) where
  -- GET answers with the tickets left.
  get_inventory_lem :
      (w : World e.Store)
      → e.net w.calls ≡ delivered
      → Shows e.redis w.redis sale
      → get_inventory e id w ≡ (ok (sale.left id), record w { calls = suc w.calls })
  unfolding get_inventory
  get_inventory_lem w net shows =
      rw net (rw (counted (e.get (inventory_key id) w.redis) _ (shows.counters id)) refl)

  pub set-Shows :
      (total : ℤ) (s : e.Store)
      → IsRedis e.redis
      → Shows e.redis s sale
      → Shows e.redis (e.set (inventory_key id) (int total) s) (restock id total sale)
  unfolding restock
  set-Shows total s laws shows = record {
    counters = λ v.
        rw (laws.get-set (inventory_key id) (inventory_key v) (int total) s, inventory_key-eqb id v)
          (restock-counter (id == v) total (sale.left v) _ (shows.counters v));
    locks = λ v u.
        rw
          (
            laws.get-set (inventory_key id) (user_lock_key v u) (int total) s,
            inventory-ne-lock id v u,
          )
          (shows.locks v u);
  }

module _ (e : Env) (cfg : Config) (id : String) (sale : Sale) (w : World e.Store) where
  -- What a start does, by the tickets left.
  abbrev pub Started : Response × World e.Store → Type 0
  Started (response, w') =
      ((pos 0 <ℤ sale.left id)
        × (response ≡ record { status = 200; body = already_started (sale.left id) })
        × (w'.redis ≡ w.redis))
      ⊎ ((sale.left id ≤ℤ pos 0)
          × (response ≡ record { status = 200; body = started id cfg.ticket_inventory })
          × Shows e.redis w'.redis (restock id cfg.ticket_inventory sale))

  -- Let Redis keep its laws, every call be carried out, the store show a sale and the event's
  -- identifier not be empty. A start changes nothing while tickets are left and says so; otherwise,
  -- also when the sale is sold out, the count becomes the configured total and every lock stays as
  -- it is.
  pub start_flash_sale-Started :
      IsRedis e.redis
      → IsOnline e
      → Shows e.redis w.redis sale
      → (id == "") ≡ false
      → Started (start_flash_sale e cfg id w)
  unfolding start_flash_sale init_inventory
  start_flash_sale-Started laws online shows named =
      rw (named, get_inventory_lem e id sale w (online w.calls) shows, start_unless)
        (elim (Bool-cases (ltb_ℤ (pos 0) (sale.left id))) [
          | inl more ↦ rw more (inl (ground arith, refl, refl))
          | inr less ↦
              rw (less, online (suc w.calls))
                (inr
                  (ground arith, refl, set-Shows e id sale cfg.ticket_inventory w.redis laws shows))
        ])

  sold_difference : (n m : ℤ) → wrap64 (n -ℤ m) ≡ n -ℤ m → wrap64 (n -ℤ m) +ℤ m ≡ n
  sold_difference n m h = rw h (omega int_laws)

  -- With every call carried out, a store that shows a sale, an identifier that is not empty and a
  -- difference that fits into 64 bits, the event is shown with status 200, with the identifier, the
  -- configured total, the tickets left and as many sold as the total lacks, and only the count of
  -- calls changes.
  pub get_event_by_id-availability :
      IsOnline e
      → Shows e.redis w.redis sale
      → (id == "") ≡ false
      → IsInt64 (cfg.ticket_inventory -ℤ sale.left id)
      → let (response, w') = get_event_by_id e cfg id w in
        (sold : ℤ) × (response ≡ record {
          status = 200;
          body = event (record {
            event = record {
              id = id;
              name = "Mega Concert 2026";
              description =
                  "The biggest concert of the year! Limited tickets available. First come, first served.";
              total_tickets = cfg.ticket_inventory;
              ticket_price_cents = 4999;
            };
            tickets_remaining = sale.left id;
            tickets_sold = sold;
          });
        })
        × (sold +ℤ sale.left id ≡ cfg.ticket_inventory)
        × (w' ≡ record w { calls = suc w.calls })
  unfolding get_event_by_id
  get_event_by_id-availability online shows named fits =
      rw (named, get_inventory_lem e id sale w (online w.calls) shows)
        (_, refl, sold_difference cfg.ticket_inventory (sale.left id) (wrap64_small _ fits), refl)
