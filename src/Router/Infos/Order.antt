-- ===== src/Router/Infos/Order.antt =====
-- The order in which an announcement replaces another: by sequence number, then by the lower
-- parent, then by the lower nonce.
use yggdrasil_go.Base.{ℕ, ◌≡◌, refl, Bool, true, false, ltb, if◌then◌else◌, arith, length}
use yggdrasil_go.Binary.{Bytes}
use yggdrasil_go.Crypto.{less}
use yggdrasil_go.Crypto.Order.{less_asymm, less_trans, less_total}
use yggdrasil_go.Messages.RouterAnnounce.{RouterAnnounce, RouterInfo}
use yggdrasil_go.Router.Infos.{accepts}

-- `accepts` reads these of the stored entry and of the announcement.
pub newer : ℕ → Bytes → ℕ → ℕ → Bytes → ℕ → Bool
newer s p n s' p' n' =
    if ltb s' s
    then false
    else if ltb s s'
    then true
    else if less p p'
    then false
    else if less p' p
    then true
    else if ltb n' n
    then true
    else false

pub accepts-newer :
    (info : RouterInfo) (ann : RouterAnnounce)
    → accepts info ann ≡ newer info.seq info.parent info.nonce ann.seq ann.parent ann.nonce
unfolding accepts newer
accepts-newer info ann = refl

module _ (s : ℕ) (p : Bytes) (n : ℕ) (s' : ℕ) (p' : Bytes) (n' : ℕ) where
  pub newer_asymm : newer s p n s' p' n' ≡ true → newer s' p' n' s p n ≡ false
  unfolding newer
  newer_asymm h = ground (arith, less_asymm p p', less_asymm p' p)

  pub newer_total :
      length p ≡ length p'
      → newer s p n s' p' n' ≡ false
      → newer s' p' n' s p n ≡ false
      → (s ≡ s') × (p ≡ p') × (n ≡ n')
  unfolding newer
  newer_total l h k = ground (arith, less_total p p' l, less_asymm p p')

pub newer_trans :
    (s : ℕ) (p : Bytes) (n : ℕ) (s' : ℕ) (p' : Bytes) (n' : ℕ) (s'' : ℕ) (p'' : Bytes) (n'' : ℕ)
    → length p ≡ length p'
    → length p' ≡ length p''
    → newer s p n s' p' n' ≡ true
    → newer s' p' n' s'' p'' n'' ≡ true
    → newer s p n s'' p'' n'' ≡ true
unfolding newer
newer_trans s p n s' p' n' s'' p'' n'' l l' h k = ground (
  arith,
  less_trans p p' p'',
  less_trans p'' p' p,
  less_asymm p p'',
  less_asymm p' p,
  less_asymm p'' p',
  less_asymm p p',
  less_asymm p' p'',
  less_total p p' l,
  less_total p' p'' l',
)
