-- ===== src/Constructors/Checks.antt =====
-- Which nodes the constructors of virtual_kubelet/node/nodeutil/controller.go and provider/vnode.go
-- build, and with which error they fail.
use virtual_kubelet.Common.{
  ◌≡◌, ◌⊎◌, inl, inr, refl, Bool, true, false, List, [], Text, text, Error, message, wrapped,
  if-holds_both, ℤ,
}
use virtual_kubelet.Kube.Nodes.{KubeNode, BuildVNodeConfig}
use virtual_kubelet.Biz.{same_text}
use virtual_kubelet.NodeObject.{
  NewResult, made, refused, new_v_node, build_node, set_architecture, default_node,
}
use virtual_kubelet.Constructors.{
  Built, built, not_built, under, ◌>>=◌, ◌>>◌, given_or, new_node_controller, new_pod_controller,
  NodeConfig, NodeOpt, apply_opts, NewProviderFunc, NodeParts, new_node, v_node_opts,
  new_v_node_parts, with_client, with_cache,
}

-- What holds of all ways on holds of the chain.
module _ {B : Type 0} (P : Built B → Type 0) where
  >>=-holds :
      {A : Type 0} (m : Built A) (k : A → Built B)
      → ((a : A) → m ≡ built a → P (k a))
      → ((e : Error) → m ≡ not_built e → P (not_built e))
      → P (m >>= k)
  >>=-holds (built a) k f g = f a refl
  >>=-holds (not_built e) k f g = g e refl

  under-holds :
      {A : Type 0} (t : Text) (m : Built A) (k : A → Built B)
      → ((a : A) → m ≡ built a → P (k a))
      → ((e : Error) → m ≡ not_built e → P (not_built (wrapped t e)))
      → P (under t m >>= k)
  under-holds t (built a) k f g = f a refl
  under-holds t (not_built e) k f g = g e refl

  given_or-holds :
      (b : Bool) (t : Text) (k : Built B)
      → (b ≡ true → P k)
      → (b ≡ false → P (not_built (message t)))
      → P (given_or b t >> k)
  given_or-holds true t k f g = f refl
  given_or-holds false t k f g = g refl

  under_given-holds :
      {A : Type 0} (h t : Text) (b : Bool) (m : Built A) (k : A → Built B)
      → (b ≡ true → P (under h m >>= k))
      → (b ≡ false → P (not_built (wrapped h (message t))))
      → P (under h (given_or b t >> m) >>= k)
  under_given-holds h t true m k f g = f refl
  under_given-holds h t false m k f g = g refl

module _ {L R : Type 0} (default_limiter : L) (default_retry : R) (num_cpu : ℤ) (name : Text)
    (new_provider : NewProviderFunc) (opts : List NodeOpt) where
  abbrev start : NodeConfig
  start = record {
    client = false;
    cache = false;
    node = default_node name;
    event_recorder = false;
    num_workers = num_cpu;
  }

  -- The node that is built, from what the options and the provider have left.
  abbrev pub Fits : NodeConfig → Bool × KubeNode → NodeParts L R → Type 0
  Fits cfg p parts =
      (cfg.client ≡ true)
      × (cfg.cache ≡ true)
      × (p.0 ≡ true)
      × (parts.node_controller.node ≡ p.1)
      × (parts.workers ≡ cfg.num_workers)
      × (parts.pod_controller.node_name ≡ name)

  -- What is missing, or which of the callers' functions fails.
  abbrev pub Explained : Built (NodeParts L R) → Type 0
  Explained (built parts) =
      (cfg : NodeConfig) × (p : Bool × KubeNode) × (apply_opts opts start ≡ built cfg)
      × (new_provider cfg.node ≡ built p)
      × Fits cfg p parts
  Explained (not_built e) =
      (apply_opts opts start ≡ not_built e)
      ⊎ ((cfg : NodeConfig) × (apply_opts opts start ≡ built cfg)
          × (((cfg.client ≡ false) × (e ≡ message (text "no client provided")))
              ⊎ ((e' : Error) × (new_provider cfg.node ≡ not_built e')
                  × (e ≡ wrapped (text "error creating provider") e'))
              ⊎ ((p : Bool × KubeNode) × (new_provider cfg.node ≡ built p)
                  × (((p.0 ≡ false)
                        × (e
                            ≡ wrapped (text "error creating pod controller")
                                (message (text "missing provider"))))
                      ⊎ ((cfg.cache ≡ false)
                          × (e
                              ≡ wrapped (text "error creating pod controller")
                                  (message (text "missing cache"))))))))

  -- A node is built only if the options succeed and leave a client and a cache and there is a
  -- provider of pods, and it has the node object and the workers that they have left; and an error is
  -- that of the first option that fails, of the missing client, of the provider's function, or of the
  -- missing provider or cache. The pod controller's own checks of the recorder and the client never
  -- fail.
  pub new_node-Explained :
      Explained (new_node default_limiter default_retry num_cpu name new_provider opts)
  unfolding new_node new_node_controller new_pod_controller
  new_node-Explained =
      let P = Explained in
      >>=-holds P (apply_opts opts start) _
        (λ cfg applied.
          given_or-holds P cfg.client (text "no client provided") _
            (λ client.
              under-holds P (text "error creating provider") (new_provider cfg.node) _
                (λ p provided.
                  let h = text "error creating pod controller" in
                  under_given-holds P h (text "missing provider") p.0 _ _
                    (λ pods.
                      under_given-holds P h (text "missing client") cfg.client _ _
                        (λ _.
                          under_given-holds P h (text "missing cache") cfg.cache _ _
                            (λ cache.
                              (cfg, p, applied, provided, (client, cache, pods, refl, refl, refl)))
                            (λ no_cache.
                              inr (cfg, applied, inr (inr (p, provided, inr (no_cache, refl))))))
                        (λ no_client. cc))
                    (λ no_pods. inr (cfg, applied, inr (inr (p, provided, inl (no_pods, refl))))))
                (λ e failed. inr (cfg, applied, inr (inl (e, failed, refl)))))
            (λ no_client. inr (cfg, applied, inl (no_client, refl))))
        (λ e failed. inl failed)

module _ {L R : Type 0} (default_limiter : L) (default_retry : R) (num_cpu : ℤ)
    (architecture operating_system : Text) (config : BuildVNodeConfig) where
  -- The same node object and the configured workers, if client and cache are there.
  abbrev pub Agrees : Bool → Bool → NewResult → Built (NodeParts L R) → Type 0
  Agrees client cache (refused e) b = b ≡ not_built e
  Agrees true true (made node) b =
      (parts : NodeParts L R) × (b ≡ built parts)
      × (parts.node_controller.node ≡ node)
      × (parts.workers ≡ config.worker_num)
  Agrees false cache (made node) b = b ≡ not_built (message (text "no client provided"))
  Agrees true false (made node) b =
      b
      ≡ not_built (wrapped (text "error creating pod controller") (message (text "missing cache")))

  made-Agrees :
      (client cache : Bool)
      → Agrees client cache
          (made (
            build_node config
              (set_architecture architecture operating_system (default_node config.node_name))))
          (new_node default_limiter default_retry num_cpu config.node_name
            (λ node. built (true, node))
            (v_node_opts architecture operating_system config client cache))
  unfolding new_node v_node_opts new_node_controller new_pod_controller with_client with_cache
  made-Agrees true true = (_, refl, refl, refl)
  made-Agrees true false = refl
  made-Agrees false cache = refl

  -- `NewVNode` builds the node object that its options describe, and as many workers as configured, if
  -- the client and the cache are given, and else fails with the error of the missing one; without a
  -- name it fails as well.
  pub new_v_node_parts-Agrees :
      (client cache : Bool)
      → Agrees client cache (new_v_node architecture operating_system config) (
          new_v_node_parts default_limiter default_retry num_cpu architecture operating_system
            config client cache)
  unfolding new_v_node_parts new_v_node
  new_v_node_parts-Agrees client cache =
      if-holds_both (Agrees client cache) (same_text config.node_name []) (λ _. refl)
        (λ _. made-Agrees client cache)
