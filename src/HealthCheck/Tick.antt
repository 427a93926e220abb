-- ===== src/HealthCheck/Tick.antt =====
-- What one tick of the health check does to the shared maps.
use aralez.Prelude.{◌≡◌, refl, ◌⊎◌, inl, inr, [], Bool-cases, list_eq, nat_eq}
use aralez.Text.{Str}
use aralez.Structs.{UpstreamsDashMap}
use aralez.Tools.{compare_dashmaps, clone_idmap_into}
use aralez.Tools.Clone.{IsUpstreams, reset, clone_dashmap_into-eq-reset}
use aralez.Tools.Compare.{SameUpstreams, compare_dashmaps_iff}
use aralez.Tools.Paths.{reset-IsUpstreams}
use aralez.HealthCheck.{Net, Checked, build_upstreams, hc2}
use aralez.HealthCheck.Kept.{build_upstreams-IsUpstreams}

module _ (sha_hex : Str → Str) (net : Net) (fullist : UpstreamsDashMap) (method : Str)
    (c : Checked) where
  -- For maps in which no host stands twice and no path twice under a host: a tick that finds the
  -- current upstreams again leaves all state alone, counters too. One that finds other upstreams
  -- installs them with counters of 0, rebuilds the id map from them and forgets the issued
  -- cookies. It finds the current ones exactly when both have the same hosts, paths and servers.
  pub hc2_lem :
      IsUpstreams fullist
      → IsUpstreams c.upslist
      → let totest = build_upstreams net fullist method in
        (SameUpstreams totest c.upslist × (hc2 sha_hex net fullist method c ≡ c))
        ⊎ (¬ (SameUpstreams totest c.upslist)
            × (hc2 sha_hex net fullist method c ≡ record {
              upslist = reset totest;
              idlist = clone_idmap_into sha_hex totest c.idlist;
              reverse_store = [];
            }))
  unfolding hc2
  hc2_lem h k =
      let totest = build_upstreams net fullist method in
      let is_ups = build_upstreams-IsUpstreams net fullist method h in
      let same_iff = compare_dashmaps_iff totest c.upslist is_ups k in
      elim (Bool-cases (compare_dashmaps totest c.upslist)) [
        | inl same ↦ inl (same_iff.0 same, rw (same, hc2) refl)
        | inr other ↦ inr (
          λ s. cc (other, same_iff.1 s),
          rw (other, clone_dashmap_into-eq-reset totest c.upslist is_ups) refl,
        )
      ]

  -- A tick keeps the current upstreams well-formed, without a host twice or a path twice under a
  -- host, if they and the configured ones are.
  pub hc2-IsUpstreams :
      IsUpstreams fullist
      → IsUpstreams c.upslist
      → IsUpstreams (hc2 sha_hex net fullist method c).upslist
  hc2-IsUpstreams h k = elim (hc2_lem h k) [
    | inl same ↦ rw same.1 k
    | inr other ↦ rw other.1 (
        reset-IsUpstreams (build_upstreams net fullist method)
          (build_upstreams-IsUpstreams net fullist method h))
  ]
