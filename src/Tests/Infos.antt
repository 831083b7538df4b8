-- ===== src/Tests/Infos.antt =====
-- The stored announcements at concrete inputs.
use mathlib.Core.List.Perm
use yggdrasil_go.Base.{
  ℕ, ◌≡◌, ◌⊎◌, inl, inr, refl, sym, ap, ◌∙◌, [], ◌∷◌, none, some, true, false, arith,
}
use yggdrasil_go.Crypto.{equal, less}
use yggdrasil_go.Map.{lookup, insert, is_in, bytes_key}
use yggdrasil_go.Messages.RouterAnnounce.{RouterAnnounce}
use yggdrasil_go.Router.Infos.{update, save, accepts, timer_fired, handle_announce, info_of}
use yggdrasil_go.Router.Infos.Convergence.{updates, updates-perm, IsConsistent}
use yggdrasil_go.Router.Infos.Safety.{
  SentKnown, Handled, sent_in, handle_announce_safe, timer_fired-SentKnown,
}
use yggdrasil_go.Router.Infos.Timers.{timer_fired-update}
use yggdrasil_go.Tests.Data.{key_of, peer_of, announcement, small_router}

-- Node 3 changed its parent from 2 to 1.
abbrev older : RouterAnnounce
older = announcement 3 2 7

abbrev newer : RouterAnnounce
newer = announcement 3 1 8

abbrev Seen : RouterAnnounce → Type 0
Seen a = (a ≡ older) ⊎ (a ≡ newer)

Seen-IsConsistent : (a b : RouterAnnounce) → Seen a → Seen b → a.key ≡ b.key → IsConsistent a b
Seen-IsConsistent a b (inl e) (inl d) k s p n = rw (e, d)
Seen-IsConsistent a b (inl e) (inr d) k s p n =
    absurd (different (sym (ap (λ x. x.seq) e) ∙ s ∙ ap (λ x. x.seq) d))
  where
    different : ◌≡◌ {A = ℕ} 7 8 → ⊥
    different q = omega arith
Seen-IsConsistent a b (inr e) (inl d) k s p n =
    absurd (different (sym (ap (λ x. x.seq) e) ∙ s ∙ ap (λ x. x.seq) d))
  where
    different : ◌≡◌ {A = ℕ} 8 7 → ⊥
    different q = omega arith
Seen-IsConsistent a b (inr e) (inr d) k s p n = rw (e, d)

updates-perm_example :
    lookup (key_of 3) (updates (older ∷ newer ∷ []) small_router).infos
    ≡ lookup (key_of 3) (updates (newer ∷ older ∷ []) small_router).infos
unfolding lookup
updates-perm_example =
    updates-perm Seen Seen-IsConsistent (key_of 3) (older ∷ newer ∷ []) (newer ∷ older ∷ [])
      small_router small_router (Perm.swap newer older [])
      ((inl refl, refl), ((inr refl, refl), tt)) (λ info e. cc) refl

newer_wins :
    lookup (key_of 3) (updates (newer ∷ older ∷ []) small_router).infos ≡ some (info_of newer)
unfolding updates update save accepts lookup insert equal less
newer_wins = refl

small_router-SentKnown : SentKnown small_router
unfolding lookup sent_in is_in
small_router-SentKnown peer key s = ground arith

handle_announce_safe_example :
    Handled (key_of 2) (key_of 3) (handle_announce (peer_of 2) older small_router)
unfolding lookup equal
handle_announce_safe_example =
    handle_announce_safe (peer_of 2) older small_router [] small_router-SentKnown refl

timer_fired-SentKnown_example : SentKnown (timer_fired (key_of 3) 1 small_router)
timer_fired-SentKnown_example =
    timer_fired-SentKnown (key_of 3) 1 small_router small_router-SentKnown

timer_fired-update_example :
    (timer_fired (key_of 3) 0 (update older small_router).1 ≡ (update older small_router).1)
    × (equal (key_of 3) (update older small_router).1.public_key ≡ true
        → (timer_fired (key_of 3) 1 (update older small_router).1).refresh ≡ true)
    × (equal (key_of 3) (update older small_router).1.public_key ≡ false
        → lookup (key_of 3) (timer_fired (key_of 3) 1 (update older small_router).1).infos ≡ none)
timer_fired-update_example =
    timer_fired-update older small_router 0 (unfold update lookup in refl) (omega arith)
