-- ===== src/Config/ValidateLaws.antt =====
-- What a valid configuration is, and that it is valid again.
use text.Mathlib.Text.{◌==◌ as str_eq}
use text.Mathlib.TextEquality.{eq_iff}
use oikade.Prelude.{
  ℕ, ◌+◌, ◌≡◌, refl, sym, subst, ◌∙◌, String, Bool, true, false, not, ◌&&◌, ◌||◌, Option, none,
  some, List, [], ◌∷◌, map, ◌==◌, any, All, if◌then◌else◌, inl, inr, Bool-cases, arith,
}
use oikade.Prelude.Result.{ok, err, map_err, map_err-ok, bind-ok, guard-ok, ok_injective, err_ne_ok}
use oikade.Prelude.Text.{trim}
use oikade.Core.Model.{validate_identifier}
use oikade.Config.Types.{
  VirtualSwitchConfig, PluginConfig, MatterAdapterConfig, Config, bad_switch_id, bad_plugin_id,
  bad_log_level, current_version,
}
use oikade.Config.Validate.{
  to_ascii_lowercase, normalized_log_level, validate_unpadded_path, validate_commissioning,
  validate_switches, validate_plugins, validate_matter, validate_codes, is_none, unwrap_or,
  runtime_levels, matter_levels, validate,
}

-- Identifiers of which no two are the same.
abbrev pub Distinct : List String → Type 0
Distinct [] = Unit
Distinct (x ∷ xs) = (any (str_eq x) xs ≡ false) × Distinct xs

-- What Matter needs: a passcode and a discriminator that pass, where it is enabled.
abbrev pub IsCommissioned : MatterAdapterConfig → Type 0
IsCommissioned m =
    (d : ℕ) × (m.commissioning.discriminator ≡ some d)
    × (validate_commissioning m.commissioning.setup_passcode d ≡ ok tt)

pub record IsValid (c : Config) : Type 0 where
  pub switch_ids : Distinct (map (λ (s : VirtualSwitchConfig). s.id) c.switches)
  pub plugin_ids : Distinct (map (λ (p : PluginConfig). p.id) c.plugins)
  pub identifiers :
      All (λ (s : VirtualSwitchConfig). validate_identifier s.id ≡ ok tt) c.switches
      × All (λ (p : PluginConfig). validate_identifier p.id ≡ ok tt) c.plugins
  pub commissioned : c.matter.enabled ≡ true → IsCommissioned c.matter
  pub again : validate c ≡ ok c

str_eq_sym : (a b : String) → str_eq a b ≡ false → str_eq b a ≡ false
str_eq_sym a b h = elim (Bool-cases (str_eq b a)) [
  | inl e ↦ absurd (not_both (sym ((eq_iff a b).1 (sym ((eq_iff b a).0 e))) ∙ h))
  | inr e ↦ e
]
  where
    not_both : true ≡ false → ⊥
    not_both p = cc

-- Identifiers that come after others, as the loops see them.
abbrev Unseen : List String → List String → Type 0
Unseen seen ids = All (λ x. any (str_eq x) seen ≡ false) ids

Unseen-tail :
    (x : String) (seen ids : List String)
    → Unseen (x ∷ seen) ids
    → Unseen seen ids × (any (str_eq x) ids ≡ false)
Unseen-tail x seen [] u = (tt, refl)
Unseen-tail x seen (y ∷ ids) u =
    let (later, fresh) = Unseen-tail x seen ids u.1 in
    let other : str_eq y x ≡ false = ground (arith, u.0) in
    let old : any (str_eq y) seen ≡ false = ground (arith, u.0) in
    ((old, later), rw (str_eq_sym y x other, fresh) refl)

validate_switches-ok :
    (i : ℕ) (seen : List String) (xs : List VirtualSwitchConfig)
    → validate_switches i seen xs ≡ ok tt
    → Unseen seen (map (λ (s : VirtualSwitchConfig). s.id) xs)
      × Distinct (map (λ (s : VirtualSwitchConfig). s.id) xs)
      × All (λ (s : VirtualSwitchConfig). validate_identifier s.id ≡ ok tt) xs
unfolding validate_switches
validate_switches-ok i seen [] h = (tt, tt, tt)
validate_switches-ok i seen (x ∷ xs) h =
    let (u, named, h1) = bind-ok (map_err (bad_switch_id i) (validate_identifier x.id)) _ _ h in
    let (_, h2) =
      guard-ok (str_eq (trim x.name) "" || not (str_eq x.name (trim x.name))) _ _ _ h1 in
    let (fresh, h3) = guard-ok (any (str_eq x.id) seen) _ _ _ h2 in
    let (unseen, distinct, valid) = validate_switches-ok (i + 1) (x.id ∷ seen) xs h3 in
    let (old, later) = Unseen-tail x.id seen _ unseen in
    ((fresh, old), (later, distinct), (map_err-ok _ _ _ named, valid))

validate_plugins-ok :
    (i : ℕ) (seen : List String) (xs : List PluginConfig)
    → validate_plugins i seen xs ≡ ok tt
    → Unseen seen (map (λ (p : PluginConfig). p.id) xs)
      × Distinct (map (λ (p : PluginConfig). p.id) xs)
      × All (λ (p : PluginConfig). validate_identifier p.id ≡ ok tt) xs
unfolding validate_plugins
validate_plugins-ok i seen [] h = (tt, tt, tt)
validate_plugins-ok i seen (x ∷ xs) h =
    let (u, named, h1) = bind-ok (map_err (bad_plugin_id i) (validate_identifier x.id)) _ _ h in
    let (_, h2) = guard-ok (str_eq x.artifact "") _ _ _ h1 in
    let (_, _, h3) = bind-ok (validate_unpadded_path x.artifact "artifact") _ _ h2 in
    let (fresh, h4) = guard-ok (any (str_eq x.id) seen) _ _ _ h3 in
    let (unseen, distinct, valid) = validate_plugins-ok (i + 1) (x.id ∷ seen) xs h4 in
    let (old, later) = Unseen-tail x.id seen _ unseen in
    ((fresh, old), (later, distinct), (map_err-ok _ _ _ named, valid))

-- The discriminator that is there, and the passcode.
codes-IsCommissioned :
    (m : MatterAdapterConfig)
    → (m.enabled && str_eq m.commissioning.setup_passcode "") ≡ false
    → (m.enabled && is_none m.commissioning.discriminator) ≡ false
    → validate_codes (str_eq m.commissioning.setup_passcode "") m.commissioning ≡ ok tt
    → m.enabled ≡ true
    → IsCommissioned m
codes-IsCommissioned m passcode discriminator h on =
    present m.commissioning.discriminator refl (rw on at discriminator)
      (subst (λ b. validate_codes b m.commissioning ≡ ok tt) (rw on at passcode) h)
  where
    present :
        (o : Option ℕ)
        → m.commissioning.discriminator ≡ o
        → is_none m.commissioning.discriminator ≡ false
        → validate_commissioning m.commissioning.setup_passcode
            (unwrap_or 0 m.commissioning.discriminator)
          ≡ ok tt
        → IsCommissioned m
    present (some d) p n v = (d, p, rw p at v)
    present none p n v = absurd (missing (rw p at n))
      where
        missing : true ≡ false → ⊥
        missing x = cc

validate_matter-ok :
    (m : MatterAdapterConfig)
    → validate_matter m.enabled m.commissioning ≡ ok tt
    → m.enabled ≡ true
    → IsCommissioned m
unfolding validate_matter
validate_matter-ok m h on =
    let (passcode, h1) = guard-ok (m.enabled && str_eq m.commissioning.setup_passcode "") _ _ _ h in
    let (discriminator, h2) =
      guard-ok (m.enabled && is_none m.commissioning.discriminator) _ _ _ h1 in
    codes-IsCommissioned m passcode discriminator h2 on

-- A level in its normal form stays as it is.
abbrev IsNormal : String → Type 0
IsNormal a = to_ascii_lowercase (trim a) ≡ a

listed-IsNormal :
    (w : String) (accepted : List String)
    → All IsNormal accepted
    → any (str_eq w) accepted ≡ true
    → IsNormal w
listed-IsNormal w [] n h = absurd (false-ne-true h)
  where
    false-ne-true : false ≡ true → ⊥
    false-ne-true x = cc
listed-IsNormal w (a ∷ accepted) n h = elim (Bool-cases (str_eq w a)) [
  | inl e ↦ subst IsNormal (sym ((eq_iff w a).0 e)) n.0
  | inr e ↦ listed-IsNormal w accepted n.1 (rw e at h)
]

normalized-normalized :
    (v path w : String) (accepted : List String)
    → All IsNormal accepted
    → normalized_log_level v path accepted ≡ ok w
    → normalized_log_level w path accepted ≡ ok w
unfolding normalized_log_level
normalized-normalized v path w accepted n h =
    listed (any (str_eq (to_ascii_lowercase (trim v))) accepted) refl h
  where
    listed :
        (b : Bool)
        → any (str_eq (to_ascii_lowercase (trim v))) accepted ≡ b
        → (if b then ok (to_ascii_lowercase (trim v)) else err (bad_log_level path)) ≡ ok w
        → (if any (str_eq (to_ascii_lowercase (trim w))) accepted
            then ok (to_ascii_lowercase (trim w))
            else err (bad_log_level path))
          ≡ ok w
    listed true p q =
        let has_w : any (str_eq w) accepted ≡ true =
          subst (λ x. any (str_eq x) accepted ≡ true) (ok_injective q) p in
        rw (listed-IsNormal w accepted n has_w, has_w) refl
    listed false p q = absurd (err_ne_ok q)

runtime_levels-IsNormal : All IsNormal runtime_levels
unfolding to_ascii_lowercase trim
runtime_levels-IsNormal = (refl, (refl, (refl, (refl, tt))))

matter_levels-IsNormal : All IsNormal matter_levels
unfolding to_ascii_lowercase trim
matter_levels-IsNormal = (refl, (refl, (refl, (refl, tt))))

validate-passed :
    (c : Config)
    → not (c.version == current_version) ≡ false
    → normalized_log_level c.runtime.log_level "runtime.log_level" runtime_levels
      ≡ ok c.runtime.log_level
    → validate_unpadded_path c.runtime.state_dir "runtime.state_dir" ≡ ok tt
    → validate_unpadded_path c.runtime.admin_socket "runtime.admin_socket" ≡ ok tt
    → validate_switches 0 [] c.switches ≡ ok tt
    → validate_plugins 0 [] c.plugins ≡ ok tt
    → validate_unpadded_path c.matter.executable "adapters.matter.executable" ≡ ok tt
    → normalized_log_level c.matter.log_level "adapters.matter.log_level" matter_levels
      ≡ ok c.matter.log_level
    → validate_matter c.matter.enabled c.matter.commissioning ≡ ok tt
    → validate c ≡ ok c
unfolding validate
validate-passed c version level state socket switches plugins executable matter codes =
    rw (version, level, state, socket, switches, plugins, executable, matter, codes) refl

-- A configuration that `validate` leaves has valid identifiers, distinct within the switches and within
-- the plugins; has a passcode and a discriminator that pass where Matter is enabled; and is left as it is
-- when it is validated again.
pub validate-IsValid : (c d : Config) → validate c ≡ ok d → IsValid d
unfolding validate
validate-IsValid c d h =
    let (version, h1) = guard-ok (not (c.version == current_version)) _ _ _ h in
    let (level, leveled, h2) =
      bind-ok (normalized_log_level c.runtime.log_level "runtime.log_level" runtime_levels) _ _
        h1 in
    let (_, state, h3) =
      bind-ok (validate_unpadded_path c.runtime.state_dir "runtime.state_dir") _ _ h2 in
    let (_, socket, h4) =
      bind-ok (validate_unpadded_path c.runtime.admin_socket "runtime.admin_socket") _ _ h3 in
    let (_, switches, h5) = bind-ok (validate_switches 0 [] c.switches) _ _ h4 in
    let (_, plugins, h6) = bind-ok (validate_plugins 0 [] c.plugins) _ _ h5 in
    let (_, executable, h7) =
      bind-ok (validate_unpadded_path c.matter.executable "adapters.matter.executable") _ _ h6 in
    let (matter, mattered, h8) =
      bind-ok (normalized_log_level c.matter.log_level "adapters.matter.log_level" matter_levels) _
        _ h7 in
    let (_, codes, h9) = bind-ok (validate_matter c.matter.enabled c.matter.commissioning) _ _ h8 in
    let (_, distinct, valid) = validate_switches-ok 0 [] c.switches switches in
    let (_, plugin_distinct, plugin_valid) = validate_plugins-ok 0 [] c.plugins plugins in
    let again_level =
      normalized-normalized _ "runtime.log_level" level runtime_levels runtime_levels-IsNormal
        leveled in
    let again_matter =
      normalized-normalized _ "adapters.matter.log_level" matter matter_levels
        matter_levels-IsNormal mattered in
    subst IsValid (ok_injective h9) (record {
      switch_ids = distinct;
      plugin_ids = plugin_distinct;
      identifiers = (valid, plugin_valid);
      commissioned = validate_matter-ok c.matter codes;
      again =
          validate-passed
            (record c {
              runtime = record c.runtime { log_level = level };
              matter = record c.matter { log_level = matter };
            })
            version again_level state socket switches plugins executable again_matter codes;
    })
