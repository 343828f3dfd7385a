-- ===== src/Arrivals/Uninstalls.antt =====
-- Biz modules that a base reports and that no pod has are uninstalled: the handlers of
-- vnode_controller/vnode_controller.go over provider/vnode.go. The tunnel is any one that returns from
-- `StopBiz` before it calls the controller back, as tunnel/tunnel.go asks.
use virtual_kubelet.Common.{ℕ, ◌≡◌, Option, List, [], ◌∷◌, Text, Lacks, zero, suc, Bool, Error}
use virtual_kubelet.Kube.{Container}
use virtual_kubelet.Keys.{get_biz_identity}
use virtual_kubelet.Biz.{get_biz_unique_key}
use virtual_kubelet.VPods.{Tunnel, retried}

-- A key of a name and a version without colons.
abbrev pub IsKey : Text → Type 0
IsKey key =
    (name version : Text) × (key ≡ get_biz_identity name version)
    × Lacks b':' name
    × Lacks b':' version

-- What a tunnel is asked for: the key of the pod, and that of the module.
pub data Request : Type 0 where
  start_asked stop_asked : Text → Text → Request

-- The same tunnel, with all that it is asked for; the latest comes first.
abbrev pub traced : {T : Type 0} → Tunnel T → Tunnel (T × List Request)
traced tunnel = record {
  start_biz = λ key c (s, asked).
      (let (e, s') = tunnel.start_biz key c s in
        (e, (s', start_asked key (get_biz_unique_key c) ∷ asked)));
  stop_biz = λ key c (s, asked).
      (let (e, s') = tunnel.stop_biz key c s in
        (e, (s', stop_asked key (get_biz_unique_key c) ∷ asked)));
}

abbrev pub copies : ℕ → Request → List Request → List Request
copies zero r rs = rs
copies (suc k) r rs = r ∷ copies k r rs

-- The base was asked to stop these modules, for no pod, one after the other and each at least once, and
-- for nothing else.
abbrev pub Told : List Text → List Request → List Request → Type 0
Told [] old new = new ≡ old
Told (key ∷ keys) old new = (k : ℕ) × Told keys (copies (suc k) (stop_asked [] key) old) new

module _ {T : Type 0} (tunnel : Tunnel T) (timers : ℕ) where
  abbrev stop_call :
      Text → Container → ℕ → T × List Request → Bool × Option Error × (T × List Request)
  stop_call key c n s = retried ((traced tunnel).stop_biz key c s)
