-- ===== src/Ui/Subscriptions/Commands.antt =====
-- crates/ui/src/subscriptions.rs: the commands that run beside the page, and their outputs.
use mathlib.Core.Path.{subst}
use v2ray_rs.Models.Subscription.{UuidValue, Subscription}
use v2ray_rs.Storage.Persistence.{Codec, Disk, Faults}
use v2ray_rs.Storage.Persistence.Subscriptions.{ReadsBack, Holds}
use v2ray_rs.Subscription.Formats.{Formats}
use v2ray_rs.Subscription.Update.{UpdateResult, Outside}
use v2ray_rs.Subscription.Service.{SubscriptionError, refresh}
use v2ray_rs.Subscription.Service.Refreshing.{RefreshOutcome, refresh_lem}
use v2ray_rs.Ui.Subscriptions.{SubscriptionsPage, refresh_done, tell, update_cmd}
use v2ray_rs.Ui.Subscriptions.Edits.{assign_first-replace_first}
use v2ray_rs.Base.{◌≡◌, sym, ap, ◌∙◌, ◌⊎◌, inl, inr, some, List, Unicode, Result, ok, err}

-- Where the file holds what the page shows, but for latencies, and the service then refreshes a subscription, whatever
-- the network and the store do: if it succeeds, the page shows what the file holds once it has handled
-- the output, but for latencies; if it fails, the file still holds what the page shows. The format
-- reads back what it writes, but for latencies.
pub refresh-update_cmd :
    {B : Type 0} (f : Formats B) (u : Unicode) (codec : Codec (List Subscription))
    (back : ReadsBack codec) (id : UuidValue) (o : Outside) (first second faults : Faults)
    (p : SubscriptionsPage)
    → Holds codec p.disk p.subscriptions
    → (d : Disk) × (((s : Subscription) × (result : UpdateResult) × (refresh f u codec id o first
              second p.disk
            ≡ some (ok (s, result), d))
          × Holds codec d
              (update_cmd codec faults
                (refresh_done id s result)
                (record p { disk = d })).subscriptions)
        ⊎ ((e : SubscriptionError) × (refresh f u codec id o first second p.disk ≡ some (err e, d))
            × Holds codec d p.subscriptions))
unfolding update_cmd tell
refresh-update_cmd f u codec back id o first second faults p synced =
    let ((r, d), e, outcome) =
      refresh_lem f u codec back id o first second p.disk p.subscriptions synced in
    go r d e outcome
  where
    go :
        (r : Result SubscriptionError (Subscription × UpdateResult)) (d : Disk)
        → refresh f u codec id o first second p.disk ≡ some (r, d)
        → RefreshOutcome f u codec back id o.now p.disk p.subscriptions (r, d)
        → (d : Disk) × (((s : Subscription) × (result : UpdateResult) × (refresh f u codec id o
                  first second p.disk
                ≡ some (ok (s, result), d))
              × Holds codec d
                  (update_cmd codec faults
                    (refresh_done id s result)
                    (record p { disk = d })).subscriptions)
            ⊎ ((e : SubscriptionError) × (refresh f u codec id o first second p.disk
                  ≡ some (err e, d))
                × Holds codec d p.subscriptions))
    go r d e (inl (s, result, done, same, at_now, has, held)) = (
      d,
      inl (
        s,
        result,
        e ∙ ap (λ (x : Result SubscriptionError (Subscription × UpdateResult)). some (x, d)) done,
        subst (Holds codec d) (sym (assign_first-replace_first id s p.subscriptions same)) held,
      ),
    )
    go r d e (inr (x, failed, same)) = (
      d,
      inr (
        x,
        e ∙ ap (λ (y : Result SubscriptionError (Subscription × UpdateResult)). some (y, d)) failed,
        subst (λ d'. Holds codec d' p.subscriptions) (sym same) synced,
      ),
    )
