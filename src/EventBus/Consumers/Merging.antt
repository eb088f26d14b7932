-- ===== src/EventBus/Consumers/Merging.antt =====
-- pkg/eventbus/consumer.go: what a call of `Merge` can come to.
use mathlib.Core.List.{Memᴰ}
use mathlib.Core.List.Memᴰ.{head, tail}
use k8s_countermeasures.Prelude.{
  nat_eq, ◌==◌, zero, suc, some_inj, if◌then◌else◌, ℕ, Option, none, some, List, [], ◌∷◌, ◌≡◌, refl,
  sym, arith,
}
use k8s_countermeasures.Events.{Event}
use k8s_countermeasures.EventBus.Bus.{Received}
use k8s_countermeasures.EventBus.Bus.Sending.{Channels, buffer_of}
use k8s_countermeasures.EventBus.Bus.Receiving.{Receives, nothing_yet, at_end, receive-Receives}
use k8s_countermeasures.EventBus.Bus.Receiving
use k8s_countermeasures.EventBus.Consumers.{
  empty_event, nth_case, merge, Merged, blocked, returned, channel_closed, from_received,
}

-- What one call of `Merge` under a context that is not done can come to.
pub data Merges (chs : List (Option ℕ)) (m : Channels) : Merged × Channels → Type 0 where
  waited : Merges chs m (blocked, m)
  took :
      (ch : ℕ) (e : Event) (m' : Channels)
      → Memᴰ (some ch) chs
      → ((j : ℕ) → buffer_of j m ≡ (if j == ch then e ∷ buffer_of j m' else buffer_of j m'))
      → Merges chs m (returned e none, m')
  ended : Merges chs m (returned empty_event (some channel_closed), m)

Merges-of_Receives :
    {chs : List (Option ℕ)} {ch : ℕ} {m : Channels} {r : Received × Channels}
    → Memᴰ (some ch) chs
    → Receives ch m r
    → Merges chs m (from_received none r.0, r.1)
Merges-of_Receives among nothing_yet = waited
Merges-of_Receives among at_end = ended
Merges-of_Receives {ch = ch} among (Receiving.took e m' same law) = took ch e m' among law

nth_case-Mem :
    (chosen : ℕ) (chs : List (Option ℕ)) (c : Option ℕ) → nth_case chosen chs ≡ some c → Memᴰ c chs
unfolding nth_case
nth_case-Mem chosen [] c e = absurd (ground (arith, e))
nth_case-Mem zero (b ∷ chs) c e = head (sym (some_inj e))
nth_case-Mem (suc n) (b ∷ chs) c e = tail (nth_case-Mem n chs c e)

case-Merges :
    (o : Option (Option ℕ)) (chs : List (Option ℕ)) (chosen : ℕ) (m : Channels)
    → nth_case chosen chs ≡ o
    → Merges chs m (merge none chs chosen m)
unfolding merge
case-Merges none chs chosen m e = rw (merge, e) waited
case-Merges (some none) chs chosen m e = rw (merge, e) waited
case-Merges (some (some ch)) chs chosen m e =
    rw (merge, e) (Merges-of_Receives (nth_case-Mem chosen chs (some ch) e) (receive-Receives ch m))

pub merge-Merges :
    (chs : List (Option ℕ)) (chosen : ℕ) (m : Channels) → Merges chs m (merge none chs chosen m)
merge-Merges chs chosen m = case-Merges _ chs chosen m refl
