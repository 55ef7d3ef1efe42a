-- ===== src/Network/Totals.antt =====
-- The differences of the counters of an interface over the samples of many heartbeats.
use nodepulse.Base.{
  ℕ, ◌+◌, String, ◌≡◌, refl, ap, ◌∙◌, inl, inr, Bool, true, some, List, [], ◌∷◌, arith, Bool-cases,
}
use nodepulse.Text.{is_empty}
use nodepulse.Base.Int.{ℤ}
use nodepulse.Network.{
  NetworkSample, Network, stamped, record_sample, record_samples, commit, record_network_samples,
  later_faults,
}
use nodepulse.Network.Tracker.{
  Counter, counter_of, taken, rises, last_of, whole, sum_rates, samples-Recorded,
}

-- A heartbeat with its readings of the clock.
pub record NetworkBeat : Type 0 where
  pub node_id : String
  pub samples : List NetworkSample
  pub now : ℤ
  pub cutoff : ℤ

unfoldable pub all_taken : List NetworkBeat → List NetworkSample
unfolding taken
all_taken [] = []
all_taken (b ∷ bs) = taken b.node_id b.now b.samples (all_taken bs)

unfoldable pub total : Counter → String → Network → List NetworkBeat → ℕ
unfolding sum_rates
total c key p [] = 0
total c key p (b ∷ bs) =
    let (q, rates) = record_network_samples whole 0 p b.node_id b.samples b.now b.cutoff in
    sum_rates c key b.node_id rates + total c key q bs

later_none : (fs : List Bool) → fs ≡ [] → later_faults fs ≡ []
later_none fs h = rw h refl

record_samples_faults :
    (node_id : String) (now : ℤ) (ss : List NetworkSample) (p : Network)
    → p.faults ≡ []
    → (record_samples whole 0 p node_id now ss).0.faults ≡ []
unfolding record_samples record_sample
record_samples_faults node_id now [] p f = f
record_samples_faults node_id now (s ∷ ss) p f = elim (Bool-cases (is_empty s.iface)) [
  | inl y ↦ rw y (record_samples_faults node_id now ss p f)
  | inr n ↦ rw n (
      record_samples_faults node_id now ss
        (record_sample whole 0 p (stamped whole 0 node_id now s)).0 (later_none p.faults f))
]

commit_kept :
    (before : List NetworkSample) (cutoff : ℤ) (p : Network)
    → p.faults ≡ []
    → ((commit whole 0 before cutoff p).faults ≡ [])
      × ((commit whole 0 before cutoff p).last ≡ p.last)
unfolding commit
commit_kept before cutoff p f = rw f (refl, refl)

-- A heartbeat, in front of `later`.
record Kept (c : Counter) (key node_id : String) (now cutoff : ℤ) (ss : List NetworkSample)
    (p : Network) (prev : NetworkSample) (later : List NetworkSample) : Type 0 where
  latest : NetworkSample
  held : (record_network_samples whole 0 p node_id ss now cutoff).0.last key ≡ some latest
  working : (record_network_samples whole 0 p node_id ss now cutoff).0.faults ≡ []
  summed :
      counter_of c prev.counters
        + sum_rates c key node_id (record_network_samples whole 0 p node_id ss now cutoff).1
      ≡ counter_of c latest.counters
  rising : rises c key latest later ≡ true
  same : last_of key prev (taken node_id now ss later) ≡ last_of key latest later

beat-Kept :
    (c : Counter) (key node_id : String) (now cutoff : ℤ) (ss : List NetworkSample) (p : Network)
    (prev : NetworkSample) (later : List NetworkSample)
    → p.faults ≡ []
    → p.last key ≡ some prev
    → rises c key prev (taken node_id now ss later) ≡ true
    → Kept c key node_id now cutoff ss p prev later
unfolding record_network_samples taken sum_rates
beat-Kept c key node_id now cutoff [] p prev later f h r = record {
  latest = prev;
  held = h;
  working = f;
  summed = omega arith;
  rising = r;
  same = refl;
}
beat-Kept c key node_id now cutoff (s ∷ ss) p prev later f h r =
    let q = record p { faults = [] } in
    let t = samples-Recorded c key node_id now later (s ∷ ss) q prev h r in
    let k =
      commit_kept p.rows cutoff (record_samples whole 0 q node_id now (s ∷ ss)).0
        (record_samples_faults node_id now (s ∷ ss) q refl) in
    record {
      latest = t.latest;
      held = rw f (ap (λ l. l key) k.1 ∙ t.held);
      working = rw f k.0;
      summed = rw f t.summed;
      rising = t.rising;
      same = t.same;
    }

-- If the table of the last samples holds a sample of the key of a node and an interface, no statement
-- fails, and over the samples of any later heartbeats of any nodes each sample of the key is later than
-- the one before it with a counter that did not fall, then the differences that RecordNetworkSamples
-- divides by the window, summed over the rates of the key, are what the counter has risen by from the
-- sample held to the last one, for each of the eight counters.
pub total_rise :
    (c : Counter) (key : String) (bs : List NetworkBeat) (p : Network) (prev : NetworkSample)
    → p.faults ≡ []
    → p.last key ≡ some prev
    → rises c key prev (all_taken bs) ≡ true
    → counter_of c prev.counters + total c key p bs
      ≡ counter_of c (last_of key prev (all_taken bs)).counters
unfolding total all_taken rises last_of record_network_samples
total_rise c key [] p prev f h r = omega arith
total_rise c key (b ∷ bs) p prev f h r =
    let k = beat-Kept c key b.node_id b.now b.cutoff b.samples p prev (all_taken bs) f h r in
    let rest =
      total_rise c key bs (record_network_samples whole 0 p b.node_id b.samples b.now b.cutoff).0
        k.latest k.working k.held k.rising in
    rw k.same (omega (arith, k.summed, rest))
