-- ===== src/Capabilities/Rules.antt =====
-- What a rule changes of the decisions, and the decisions of the default policy.
use openbrowser.Prelude.{
  String, ◌≡◌, refl, ◌&&◌, not, Option, none, some, List, [], arith, Eq, ◌==◌, string_eq, holds,
  if◌then◌else◌, Option-cases, inl, inr,
}
use openbrowser.Prelude.Bytes.{Bytes, bytes_eq}
use openbrowser.Prelude.Dict.{lookup, insert, lookup-insert, lookup-remove}
use openbrowser.Capabilities.{
  Capability, page_network, update_check, filter_update, dns, camera, microphone, geolocation,
  notifications, clipboard_read, clipboard_write, persistent_storage, CapabilityDecision, allow,
  deny, ask, capability_eq, CapabilityContext, RuleSet, CapabilityPolicy, is_nil, rules_of,
  set_rule, trigger_auto_save, set_global, set_workspace, set_origin, set_session,
  clear_origin_rules, scoped, or_next, resolve, create_default,
}

lookup-nil : (c : Capability) → ◌≡◌ {A = Option CapabilityDecision} (lookup c []) none
unfolding lookup
lookup-nil c = refl

scoped-set_rule {ℓ} :
    {K : Type ℓ} ⦃e : Eq K⦄ (o : Option K) (k : K) (c c' : Capability) (d : CapabilityDecision)
    (m : List (K × RuleSet))
    → scoped o (set_rule k c d m) c' ≡ (if holds o k && c == c' then some d else scoped o m c')
unfolding set_rule
scoped-set_rule none k c c' d m = refl
scoped-set_rule (some j) k c c' d m = ground (
  arith,
  lookup-nil c',
  lookup-insert k j (insert c d (rules_of k m)) m,
  lookup-insert c c' d (rules_of k m),
)

module _ (p : CapabilityPolicy) (c c' : Capability) (d : CapabilityDecision)
    (x : CapabilityContext) where
  -- A rule decides exactly the questions about its capability in its scope, unless a narrower
  -- scope (a session before an origin before a workspace) has a rule of its own; all others are
  -- decided as before. A rule for the empty origin is not taken.
  pub resolve-set :
      ((k : String)
        → resolve (set_session p k c d) c' x
          ≡ (if holds x.session_id k && c == c' then d else resolve p c' x))
      × ((o : Bytes)
          → resolve (set_origin p o c d) c' x ≡ (
              if not (is_nil o) && (holds x.origin o && c == c')
              then or_next (scoped x.session_id p.session_rules c') d
              else resolve p c' x))
      × ((k : String)
          → resolve (set_workspace p k c d) c' x ≡ (
              if holds x.workspace_id k && c == c'
              then or_next
                  (scoped x.session_id p.session_rules c')
                  (or_next (scoped x.origin p.origin_rules c') d)
              else resolve p c' x))
      × (resolve (set_global p c d) c' x ≡ (
          if c == c'
          then or_next (scoped x.session_id p.session_rules c') (
              or_next
                (scoped x.origin p.origin_rules c')
                (or_next (scoped x.workspace_id p.workspace_rules c') d))
          else resolve p c' x))
  unfolding resolve set_session set_origin set_workspace set_global trigger_auto_save
  resolve-set = (
    λ k. ground (arith, scoped-set_rule x.session_id k c c' d p.session_rules),
    λ o. ground (arith, scoped-set_rule x.origin o c c' d p.origin_rules),
    λ k. ground (arith, scoped-set_rule x.workspace_id k c c' d p.workspace_rules),
    ground (arith, lookup-insert c c' d p.global_rules),
  )

module _ (p : CapabilityPolicy) (o : Bytes) (c : Capability) (x : CapabilityContext) where
  -- Clearing an origin's rules leaves each question decided as if it named no such origin.
  pub resolve-clear_origin_rules :
      resolve (clear_origin_rules p o) c x
      ≡ resolve p c (if holds x.origin o then record x { origin = none } else x)
  unfolding resolve clear_origin_rules trigger_auto_save
  resolve-clear_origin_rules = elim (Option-cases x.origin) [
    | inl e ↦ ground arith
    | inr (j, e) ↦ ground (arith, lookup-remove o j p.origin_rules)
  ]

-- The decisions that `CreateDefault` means to make.
abbrev pub default_decision : Capability → CapabilityDecision
default_decision page_network = allow
default_decision update_check = allow
default_decision filter_update = allow
default_decision dns = allow
default_decision persistent_storage = allow
default_decision camera = ask
default_decision microphone = ask
default_decision geolocation = ask
default_decision notifications = ask
default_decision clipboard_read = ask
default_decision clipboard_write = ask
default_decision _ = deny

-- The default policy decides by the capability alone: it denies what it has no rule for.
pub resolve-create_default :
    (c : Capability) (x : CapabilityContext) → resolve create_default c x ≡ default_decision c
unfolding resolve create_default set_global lookup insert
resolve-create_default page_network x = ground arith
resolve-create_default _ x = ground arith
