-- ===== src/KuberConsul/Polling/Current.antt =====
-- What the proxy was last sent is what the last round found.
use aralez.Prelude.{
  ◌≡◌, refl, sym, ap, ◌∙◌, inl, inr, Option, none, some, List, [], ◌∷◌, ◌++◌, subst, nat_eq,
  list_eq,
}
use mathlib.Core.Option
use aralez.DashMap.{get}
use aralez.DashMap.Rebuild.{get-map_values}
use aralez.Structs.{Servers, PathMap, UpstreamsDashMap, GlobalServiceMapping, Configuration}
use aralez.Tools.Clone.{IsUpstreams, reset, reset_paths}
use aralez.Tools.Paths.{reset-IsUpstreams}
use aralez.Tools.Agree.{Agree}
use aralez.Tools.Compare.{SameServers, SamePaths, SameUpstreams}
use aralez.KuberConsul.{
  KubeEndpoints, Answer, kube_round, service_headers, list_to_upstreams, for_kuber,
}
use aralez.KuberConsul.Discovered.{clone_compare_lem}
use aralez.KuberConsul.Rounds.{kube_round-IsUpstreams}
use aralez.KuberConsul.Polling.{Polling, deliver, with_sent, kube_loop}

Agree-map :
    {A : Type 0} (R : A → A → Type 0) (f : A → A) (o : Option A)
    → ((a : A) → R a (f a))
    → Agree R o (Option.map f o)
Agree-map R f none h = tt
Agree-map R f (some a) h = h a

Agree-trans :
    {A : Type 0} (R : A → A → Type 0) (a b c : Option A)
    → ((x y z : A) → R x y → R y z → R x z)
    → Agree R a b
    → Agree R b c
    → Agree R a c
Agree-trans R none none none h p q = tt
Agree-trans R (some a) (some b) (some c) h p q = h a b c p q
Agree-trans R none (some b) c h p q = absurd p
Agree-trans R (some a) none c h p q = absurd p
Agree-trans R none none (some c) h p q = absurd q
Agree-trans R (some a) (some b) none h p q = absurd q

SamePaths-reset_paths : (m : PathMap) → SamePaths m (reset_paths m)
SamePaths-reset_paths m path =
    subst (Agree SameServers (get path m)) (sym (get-map_values (λ _ s. (s.0, 0)) path m))
      (Agree-map SameServers (λ s. (s.0, 0)) (get path m) (λ s. (refl, λ x. (λ i. i, λ i. i))))

SameUpstreams-reset : (m : UpstreamsDashMap) → SameUpstreams m (reset m)
SameUpstreams-reset m host =
    subst (Agree SamePaths (get host m)) (sym (get-map_values (λ _ p. reset_paths p) host m))
      (Agree-map SamePaths reset_paths (get host m) SamePaths-reset_paths)

SameServers-trans : (r s t : Servers) → SameServers r s → SameServers s t → SameServers r t
SameServers-trans r s t (a, f) (b, g) =
    (a ∙ b, λ x. (λ i. (g x).0 ((f x).0 i), λ i. (f x).1 ((g x).1 i)))

SameUpstreams-trans :
    (l m n : UpstreamsDashMap) → SameUpstreams l m → SameUpstreams m n → SameUpstreams l n
SameUpstreams-trans l m n p q host =
    Agree-trans SamePaths (get host l) (get host m) (get host n)
      (λ x y z f g path.
        Agree-trans SameServers (get path x) (get path y) (get path z) SameServers-trans (f path)
          (g path))
      (p host) (q host)

-- The upstreams that were sent last; `start` were before.
abbrev pub latest : UpstreamsDashMap → List Configuration → UpstreamsDashMap
latest start [] = start
latest start (config ∷ sent) = latest config.upstreams sent

-- Each configuration that is sent has other upstreams than the one before it.
abbrev pub Changes : UpstreamsDashMap → List Configuration → Type 0
Changes start [] = Unit
Changes start (config ∷ sent) =
    (¬ (SameUpstreams config.upstreams start)) × Changes config.upstreams sent

-- What is kept of one delivery.
record IsDelivered (upstreams : UpstreamsDashMap) (p : Polling) (r : Option Configuration × Polling)
    : Type 0 where
  well_formed : IsUpstreams r.1.prev_upstreams
  current : SameUpstreams upstreams r.1.prev_upstreams
  last : latest p.prev_upstreams (with_sent r.0 []) ≡ r.1.prev_upstreams
  changes : Changes p.prev_upstreams (with_sent r.0 [])

deliver-IsDelivered :
    (upstreams : UpstreamsDashMap) (config : Configuration) (p : Polling)
    → IsUpstreams upstreams
    → IsUpstreams p.prev_upstreams
    → IsDelivered upstreams p (deliver upstreams config p)
unfolding deliver
deliver-IsDelivered upstreams config p h k =
    elim (clone_compare_lem upstreams p.prev_upstreams config h k) [
      | inl (same, e) ↦ rw e (record { well_formed = k; current = same; last = refl; changes = tt })
      | inr (other, e) ↦ rw e (record {
        well_formed = reset-IsUpstreams upstreams h;
        current = SameUpstreams-reset upstreams;
        last = refl;
        changes = (
          λ s. other (
              SameUpstreams-trans upstreams (reset upstreams) p.prev_upstreams
                (SameUpstreams-reset upstreams) s),
          tt,
        );
      })
    ]

latest-with_sent :
    (start mid : UpstreamsDashMap) (o : Option Configuration) (later : List Configuration)
    → latest start (with_sent o []) ≡ mid
    → latest start (with_sent o later) ≡ latest mid later
latest-with_sent start mid none later e = ap (λ m. latest m later) e
latest-with_sent start mid (some config) later e = ap (λ m. latest m later) e

Changes-with_sent :
    (start mid : UpstreamsDashMap) (o : Option Configuration) (later : List Configuration)
    → latest start (with_sent o []) ≡ mid
    → Changes start (with_sent o [])
    → Changes mid later
    → Changes start (with_sent o later)
Changes-with_sent start mid none later e h k = subst (λ m. Changes m later) (sym e) k
Changes-with_sent start mid (some config) later e h k =
    (h.0, subst (λ m. Changes m later) (sym e) k)

-- What a round finds does not depend on the headers of the configuration.
kube_round-found :
    (fetch : GlobalServiceMapping → Option (Answer KubeEndpoints))
    (services : List GlobalServiceMapping) (upstreams : UpstreamsDashMap) (c d : Configuration)
    → (kube_round fetch services upstreams c).0 ≡ (kube_round fetch services upstreams d).0
unfolding kube_round
kube_round-found fetch [] upstreams c d = refl
kube_round-found fetch (service ∷ services) upstreams c d =
    kube_round-found fetch services
      (list_to_upstreams (for_kuber (fetch service) service) upstreams service)
      (service_headers service c) (service_headers service d)

module _ (services : List GlobalServiceMapping) where
  -- What a loop sent, whose last round found these upstreams.
  abbrev IsCurrent : UpstreamsDashMap → UpstreamsDashMap → List Configuration → Type 0
  IsCurrent upstreams start sent = SameUpstreams upstreams (latest start sent) × Changes start sent

  IsCurrent-with_sent :
      (upstreams found : UpstreamsDashMap) (p : Polling) (r : Option Configuration × Polling)
      (later : List Configuration)
      → IsDelivered found p r
      → IsCurrent upstreams r.1.prev_upstreams later
      → IsCurrent upstreams p.prev_upstreams (with_sent r.0 later)
  IsCurrent-with_sent upstreams found p r later d (current, changes) = (
    subst (SameUpstreams upstreams)
        (sym (latest-with_sent p.prev_upstreams r.1.prev_upstreams r.0 later d.last)) current,
    Changes-with_sent p.prev_upstreams r.1.prev_upstreams r.0 later d.last d.changes changes,
  )

  kube_deliver :
      (fetch : GlobalServiceMapping → Option (Answer KubeEndpoints)) (p : Polling)
      → IsUpstreams p.prev_upstreams
      → let (upstreams, config) = kube_round fetch services [] p.config in
        IsDelivered upstreams p (deliver upstreams config p)
  kube_deliver fetch p h =
      let (upstreams, config) = kube_round fetch services [] p.config in
      deliver-IsDelivered upstreams config p (kube_round-IsUpstreams fetch services [] p.config tt)
        h

  -- After any number of rounds of Kubernetes the upstreams that were sent last, or the ones before
  -- if none were, have the hosts, paths and servers that the last round found, and every
  -- configuration that was sent has other upstreams than the one before it. In the upstreams
  -- before, no host stands twice and no path twice under a host.
  pub kube_loop-current :
      (rounds : List (GlobalServiceMapping → Option (Answer KubeEndpoints)))
      (fetch : GlobalServiceMapping → Option (Answer KubeEndpoints)) (p : Polling)
      → IsUpstreams p.prev_upstreams
      → let sent = (kube_loop services (rounds ++ fetch ∷ []) p).0 in
        SameUpstreams (kube_round fetch services [] p.config).0 (latest p.prev_upstreams sent)
        × Changes p.prev_upstreams sent
  unfolding kube_loop
  kube_loop-current [] fetch p h =
      let d = kube_deliver fetch p h in
      let found = (kube_round fetch services [] p.config).0 in
      (subst (SameUpstreams found) (sym d.last) d.current, d.changes)
  kube_loop-current (first ∷ rounds) fetch p h =
      let (upstreams, config) = kube_round first services [] p.config in
      let r = deliver upstreams config p in
      let d = kube_deliver first p h in
      let later = kube_loop-current rounds fetch r.1 d.well_formed in
      let same = kube_round-found fetch services [] r.1.config p.config in
      let sent = (kube_loop services (rounds ++ fetch ∷ []) r.1).0 in
      IsCurrent-with_sent (kube_round fetch services [] p.config).0 upstreams p r sent d
        (subst (λ m. SameUpstreams m (latest r.1.prev_upstreams sent)) same later.0, later.1)
