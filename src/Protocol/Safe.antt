-- ===== src/Protocol/Safe.antt =====
-- What `dispatcherLoop` of lib/protocol/protocol.go hands on.
use vidsync_app.Base.{
  ◌≡◌, ◌⊎◌, inl, inr, refl, sym, subst, List, [], ◌∷◌, ◌++◌, Option, none, some, All, All-append,
  arith,
}
use vidsync_app.DeviceId.Text.{Bytes}
use vidsync_app.DeviceId.Luhn.{Returned, ok, err}
use vidsync_app.Messages.Cluster.{ClusterConfig, WireClusterConfig, cluster_config_from_wire}
use vidsync_app.Protocol.Dispatch.{
  WireMessage, cluster_config, index, index_update, request, response, download_progress, ping,
  close, Call, on_cluster_config, State, initial, ready, Admitted, admitted, refused, admit,
  admit_other, Prepared, from_cluster, nothing, calls, rejected, panics, prepare, answer,
  dispatcher_loop,
}
use vidsync_app.Protocol.Fit.{
  FitCall, Opens, Fit, fit_nothing, fit_call, fit_rejected, fit_panics, prepare-Fit,
}

-- The state and what was handed on before.
data Phase : State → List Call → Type 0 where
  before : Phase initial []
  behind : (c : Option ClusterConfig) (cs : List Call) → Phase ready (on_cluster_config c ∷ cs)

record Good (s : State) (cs : List Call) : Type 0 where
  fit : All FitCall cs
  phase : Phase s cs

admit-ready : (s t : State) (m : WireMessage) → admit s m ≡ admitted t → t ≡ ready
unfolding admit admit_other
admit-ready s t (cluster_config w) e = ground arith
admit-ready s t close e = absurd (ground arith)
admit-ready initial t (index w) e = absurd (ground arith)
admit-ready initial t (index_update w) e = absurd (ground arith)
admit-ready initial t (request w) e = absurd (ground arith)
admit-ready initial t (response w) e = absurd (ground arith)
admit-ready initial t (download_progress w) e = absurd (ground arith)
admit-ready initial t ping e = absurd (ground arith)
admit-ready ready t (index w) e = ground arith
admit-ready ready t (index_update w) e = ground arith
admit-ready ready t (request w) e = ground arith
admit-ready ready t (response w) e = ground arith
admit-ready ready t (download_progress w) e = ground arith
admit-ready ready t ping e = ground arith

admit-initial :
    (t : State) (m : WireMessage)
    → admit initial m ≡ admitted t
    → (w : WireClusterConfig) × (m ≡ cluster_config w)
unfolding admit admit_other
admit-initial t (cluster_config w) e = (w, refl)
admit-initial t close e = absurd (ground arith)
admit-initial t (index w) e = absurd (ground arith)
admit-initial t (index_update w) e = absurd (ground arith)
admit-initial t (request w) e = absurd (ground arith)
admit-initial t (response w) e = absurd (ground arith)
admit-initial t (download_progress w) e = absurd (ground arith)
admit-initial t ping e = absurd (ground arith)

-- A cluster configuration is handed on.
from_cluster-calls :
    (r : Returned (Option ClusterConfig)) (p : Prepared)
    → from_cluster r ≡ p
    → (p ≡ panics) ⊎ ((c : Option ClusterConfig) × (p ≡ calls (on_cluster_config c)))
from_cluster-calls (ok c) p e = inr (c, sym e)
from_cluster-calls (err x) p e = inl (sym e)

calls-inj : {c d : Call} → calls c ≡ calls d → c ≡ d
calls-inj e = ground arith

grown-Phase :
    (s t : State) (cs : List Call) (m : WireMessage) (c : Call)
    → admit s m ≡ admitted t
    → prepare m ≡ calls c
    → Phase s cs
    → Phase t (cs ++ (c ∷ []))
unfolding prepare
grown-Phase s t cs m c a p before =
    let (w, e) = admit-initial t m a in
    elim (from_cluster-calls (cluster_config_from_wire (some w)) (calls c)
      (subst (λ k. prepare k ≡ calls c) e p)) [
        | inl q ↦ absurd (ground arith)
        | inr (d, q) ↦
            subst (λ k. Phase t (k ∷ [])) (sym (calls-inj q))
              (subst (λ k. Phase k (on_cluster_config d ∷ [])) (sym (admit-ready initial t m a))
                (behind d []))
      ]
grown-Phase s t cs m c a p (behind d ds) =
    subst (λ k. Phase k (on_cluster_config d ∷ (ds ++ (c ∷ [])))) (sym (admit-ready ready t m a))
      (behind d (ds ++ (c ∷ [])))

-- A message without a call is in the state where there was a cluster configuration.
kept-Phase :
    (s t : State) (cs : List Call) (m : WireMessage)
    → admit s m ≡ admitted t
    → prepare m ≡ nothing
    → Phase s cs
    → Phase t cs
unfolding prepare
kept-Phase s t cs m a p before =
    let (w, e) = admit-initial t m a in
    elim (from_cluster-calls (cluster_config_from_wire (some w)) nothing
      (subst (λ k. prepare k ≡ nothing) e p)) [
        | inl q ↦ absurd (ground arith)
        | inr (d, q) ↦ absurd (ground arith)
      ]
kept-Phase s t cs m a p (behind d ds) =
    subst (λ k. Phase k (on_cluster_config d ∷ ds)) (sym (admit-ready ready t m a)) (behind d ds)

Handed : List Call → Type 0
Handed cs = All FitCall cs × Opens cs

phase-Opens : (s : State) (cs : List Call) → Phase s cs → Opens cs
unfolding Opens
phase-Opens s cs before = tt
phase-Opens s cs (behind d ds) = tt

Good-Handed : (s : State) (cs : List Call) → Good s cs → Handed cs
unfolding Handed
Good-Handed s cs g = (g.fit, phase-Opens s cs g.phase)

module _ (model : List Call → Call → Option Bytes) where
  Loops : List WireMessage → Type 0
  Loops ms =
      (t : State) (ds : List Call) → Good t ds → Handed (dispatcher_loop model t ds ms).handed

  after_call :
      (s t : State) (cs : List Call) (m : WireMessage) (ms : List WireMessage) (c : Call)
      (r : Option Bytes)
      → admit s m ≡ admitted t
      → prepare m ≡ calls c
      → answer model cs c ≡ r
      → Good t (cs ++ (c ∷ []))
      → Loops ms
      → Handed (dispatcher_loop model s cs (m ∷ ms)).handed
  unfolding dispatcher_loop Loops
  after_call s t cs m ms c none a p q g rest =
      rw (a, dispatcher_loop) (rw (p) (rw (q) (rest t (cs ++ (c ∷ [])) g)))
  after_call s t cs m ms c (some e) a p q g rest =
      rw (a, dispatcher_loop) (rw (p) (rw (q) (Good-Handed t (cs ++ (c ∷ [])) g)))

  after_prepare :
      (s t : State) (cs : List Call) (m : WireMessage) (ms : List WireMessage) (r : Prepared)
      → admit s m ≡ admitted t
      → prepare m ≡ r
      → Fit r
      → Good s cs
      → Loops ms
      → Handed (dispatcher_loop model s cs (m ∷ ms)).handed
  unfolding dispatcher_loop Loops
  after_prepare s t cs m ms nothing a p fit_nothing g rest =
      rw (a, dispatcher_loop)
        (rw (p) (rest t cs (record { fit = g.fit; phase = kept-Phase s t cs m a p g.phase })))
  after_prepare s t cs m ms (calls c) a p (fit_call f) g rest =
      after_call s t cs m ms c (answer model cs c) a p refl
        (record {
          fit = All-append FitCall cs (c ∷ []) g.fit (f, tt);
          phase = grown-Phase s t cs m c a p g.phase;
        })
        rest
  after_prepare s t cs m ms (rejected e) a p fit_rejected g rest =
      rw (a, dispatcher_loop) (rw (p) (Good-Handed s cs g))
  after_prepare s t cs m ms panics a p fit_panics g rest =
      rw (a, dispatcher_loop) (rw (p) (Good-Handed s cs g))

  after_admit :
      (s : State) (cs : List Call) (m : WireMessage) (ms : List WireMessage) (r : Admitted)
      → admit s m ≡ r
      → Good s cs
      → Loops ms
      → Handed (dispatcher_loop model s cs (m ∷ ms)).handed
  unfolding dispatcher_loop
  after_admit s cs m ms (refused e) a g rest = rw (a, dispatcher_loop) (Good-Handed s cs g)
  after_admit s cs m ms (admitted t) a g rest =
      after_prepare s t cs m ms (prepare m) a refl (prepare-Fit m) g rest

  loop-Handed :
      (s : State) (cs : List Call) (ms : List WireMessage)
      → Good s cs
      → Handed (dispatcher_loop model s cs ms).handed
  unfolding dispatcher_loop Loops
  loop-Handed s cs [] g = Good-Handed s cs g
  loop-Handed s cs (m ∷ ms) g =
      after_admit s cs m ms (admit s m) refl g (λ t ds h. loop-Handed t ds ms h)

  -- Whatever messages the other device sends, and whatever the model answers: what the loop of a new
  -- connection hands on starts with a cluster configuration, every index that it hands on holds
  -- consistent files only, and every request names something below the folder and asks for at
  -- least one byte and at most the largest request.
  pub dispatcher_loop-Fit :
      (ms : List WireMessage)
      → All FitCall (dispatcher_loop model initial [] ms).handed
        × Opens (dispatcher_loop model initial [] ms).handed
  unfolding Handed
  dispatcher_loop-Fit ms = loop-Handed initial [] ms (record { fit = tt; phase = before })
