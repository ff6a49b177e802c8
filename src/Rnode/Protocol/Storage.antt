-- ===== src/Rnode/Protocol/Storage.antt =====
-- A configuration that a host saves is the one that the device starts with after a power cycle.
use oxinode.Prelude.{ℕ, Option, none, some, ◌≡◌, ◌↔◌, refl, ap, sym, ◌∙◌, subst}
use oxinode.Lr1121.Config.{RadioConfig, ConfigError}
use oxinode.Lr1121.Config.Setting.{default_config, validate}
use oxinode.Rnode.Command.{save_config}
use oxinode.Rnode.Eeprom
use oxinode.Rnode.Eeprom.{stored_config}
use oxinode.Rnode.Eeprom.Layout.{IsImage, saved_cells, save_config-write_all, write_all-IsImage}
use oxinode.Rnode.Eeprom.Saved.{IsStorable, stored_of, stored_config-save_config}
use oxinode.Rnode.Store.Record.{DeviceStore, encode, decode}
use oxinode.Rnode.Store.RecordFields.{IsStore, packed}
use oxinode.Rnode.Store.Restore.{decode-encode}
use oxinode.Rnode.Protocol.{Protocol, Action, reconfigure, handle, with_storage}
use oxinode.Rnode.Protocol.Panel.{resumed, resume_from, resume_stored_config, with_stored}

-- The store behind a save, read back from the record in flash.
abbrev saved_store : Protocol → DeviceStore
saved_store p = record p.store { rom = Eeprom.save_config p.config p.store.rom }

-- A start with the five parameters of a configuration and the defaults for the others: the radio is
-- programmed exactly if the configuration passes the check.
abbrev pub StartsWith : RadioConfig → Protocol × Action → Type 0
StartsWith c (q, action) =
    (q.config ≡ with_stored (stored_of c) default_config)
    × ((action ≡ reconfigure) ↔ (validate q.config ≡ none))

save-IsImage : (p : Protocol) → IsImage p.store.rom → IsImage (saved_store p).rom
save-IsImage p h =
    subst IsImage (sym (save_config-write_all p.config p.store.rom))
      (write_all-IsImage (saved_cells p.config) p.store.rom h)

resumed-action :
    (e : Option ConfigError) (p : Protocol) (c : RadioConfig)
    → p.config ≡ with_stored (stored_of c) default_config
    → validate p.config ≡ e
    → StartsWith c (resumed e p)
unfolding resumed
resumed-action none p c h v = (h, ((λ a. v), (λ a. refl)))
resumed-action (some e) p c h v = (h, ((λ a. cc), (λ a. let bad : none ≡ some e = sym a ∙ v in cc)))

resume-StartsWith :
    (p : Protocol) (c : RadioConfig)
    → p.config ≡ default_config
    → stored_config p.store.rom ≡ some (stored_of c)
    → StartsWith c (resume_stored_config p)
unfolding resume_stored_config resume_from
resume-StartsWith p c d h =
    let config = with_stored (stored_of c) p.config in
    let q : Protocol = record p { config = config } in
    subst (λ s. StartsWith c (resume_from s p)) (sym h)
      (resumed-action (validate config) q c (ap (with_stored (stored_of c)) d) refl)

-- A host saves the configuration of a device. What the firmware then writes to flash is read back at
-- the next start, and the device that starts from it has the five saved parameters, whatever it held
-- before; its radio is programmed exactly if they pass the check for both bands.
pub restart-StartsWith :
    (p : Protocol) (mcu_id : ℕ)
    → IsStore p.store
    → IsStorable p.config
    → (s : DeviceStore) × (decode (encode (handle save_config p).device.store) ≡ some s)
      × StartsWith p.config (resume_stored_config (with_storage s mcu_id))
unfolding handle with_storage
restart-StartsWith p mcu_id ok fits =
    let kept : IsStore (saved_store p) = (save-IsImage p ok.0, ok.1, ok.2, ok.3, ok.4) in
    (
      packed (saved_store p),
      decode-encode (saved_store p) kept,
      resume-StartsWith (with_storage (packed (saved_store p)) mcu_id) p.config refl
          (stored_config-save_config p.config p.store.rom ok.0 fits),
    )
