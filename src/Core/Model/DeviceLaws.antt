-- ===== src/Core/Model/DeviceLaws.antt =====
-- Which devices `Device::validate` accepts.
use oikade.Prelude.{◌≡◌, ◌≢◌, ◌↔◌, refl, arith, String, false, List, [], ◌∷◌, All, eq_iff}
use oikade.Prelude.Result.{ok}
use oikade.Prelude.Text.{is_blank}
use oikade.Core.Model.Types.{CapabilityId, Capability, Device}
use oikade.Core.Model.Validate.{
  validate_capability, contains, validate_capabilities, validate_device,
}

-- No two capabilities have one identifier.
abbrev pub Unique : List Capability → Type 0
Unique [] = Unit {0}
Unique (c ∷ cs) = All (λ (d : Capability). c.id ≢ d.id) cs × Unique cs

pub record IsValidDevice (d : Device) : Type 0 where
  pub named : is_blank d.name ≡ false
  pub has_capability : d.capabilities ≢ []
  pub all_valid : All (λ (c : Capability). validate_capability c ≡ ok tt) d.capabilities
  pub unique : Unique d.capabilities

abbrev Unseen : List CapabilityId → List Capability → Type 0
Unseen seen cs = All (λ (c : Capability). contains c.id seen ≡ false) cs

-- One identifier more is one inequality more for each later capability.
Unseen-cons :
    (i : CapabilityId) (seen : List CapabilityId) (cs : List Capability)
    → Unseen (i ∷ seen) cs ↔ (All (λ (d : Capability). i ≢ d.id) cs × Unseen seen cs)
unfolding contains
Unseen-cons i seen [] = (λ h. (tt, tt), λ h. tt)
Unseen-cons i seen (c ∷ cs) =
    let rest = Unseen-cons i seen cs in
    (
      λ h. (
        ((λ e. ground (arith, (eq_iff i c.id).1 e, h.0)), (rest.0 h.1).0),
        (ground (arith, h.0), (rest.0 h.1).1),
      ),
      λ h. (ground (arith, eq_iff i c.id, h.0.0, h.1.0), rest.1 (h.0.1, h.1.1)),
    )

loop_sound :
    (d : String) (seen : List CapabilityId) (cs : List Capability)
    → validate_capabilities d seen cs ≡ ok tt
    → All (λ (c : Capability). validate_capability c ≡ ok tt) cs × Unseen seen cs × Unique cs
unfolding validate_capabilities
loop_sound d seen [] h = (tt, tt, tt)
loop_sound d seen (c ∷ cs) h =
    let (valid, unseen, unique) = loop_sound d (c.id ∷ seen) cs (ground arith) in
    let (other, old) = (Unseen-cons c.id seen cs).0 unseen in
    ((ground arith, valid), (ground arith, old), (other, unique))

loop_complete :
    (d : String) (seen : List CapabilityId) (cs : List Capability)
    → All (λ (c : Capability). validate_capability c ≡ ok tt) cs
    → Unseen seen cs
    → Unique cs
    → validate_capabilities d seen cs ≡ ok tt
unfolding validate_capabilities
loop_complete d seen [] valid unseen unique = refl
loop_complete d seen (c ∷ cs) valid unseen unique = ground (
  arith,
  valid.0,
  unseen.0,
  loop_complete d (c.id ∷ seen) cs valid.1 ((Unseen-cons c.id seen cs).1 (unique.0, unseen.1))
      unique.1,
)

Unseen-nil : (cs : List Capability) → Unseen [] cs
unfolding contains
Unseen-nil [] = tt
Unseen-nil (c ∷ cs) = (refl, Unseen-nil cs)

sound :
    (d : Device) (cs : List Capability)
    → d.capabilities ≡ cs
    → validate_device d ≡ ok tt
    → IsValidDevice d
unfolding validate_device
sound d [] e h = ground arith
sound d (c ∷ cs) e h =
    let (valid, _, unique) = loop_sound d.id [] d.capabilities (ground arith) in
    record { named = ground arith; has_capability = λ p. cc; all_valid = valid; unique = unique }

-- A device is accepted exactly if its name is not blank, it has a capability, every capability is
-- valid, and no two capabilities have one identifier.
pub validate_device_iff : (d : Device) → (validate_device d ≡ ok tt) ↔ IsValidDevice d
unfolding validate_device
validate_device_iff d = (
  sound d d.capabilities refl,
  λ v. ground (
    arith,
    v.named,
    v.has_capability,
    loop_complete d.id [] d.capabilities v.all_valid (Unseen-nil d.capabilities) v.unique,
  ),
)
