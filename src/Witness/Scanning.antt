-- ===== src/Witness/Scanning.antt =====
-- A scan of the firmware inventory.
use sailfish.Base.{Dict, List, [], lookup, some, str_eq, ◌∷◌, ◌≡◌}
use sailfish.Property.{Value, text}
use sailfish.Inventory.{Firmware, Instance, scan_inventory, with_model}
use sailfish.Inventory.Listing.{is_mentioned}
use sailfish.Inventory.Scanning.{HaveModels, found, fqdd_pairs}
use sailfish.Inventory.Showing.{Shown, scan_inventory-Shown}

abbrev one_firmware : Dict Value
one_firmware =
    ("fw_fqdd", text "NIC.1")
    ∷ ("fw_device_class", text "20137")
    ∷ ("fw_version", text "1.2")
    ∷ ("fw_updateable", text "Yes")
    ∷ ("fw_install_date", text "")
    ∷ ("fw_name", text "NIC")
    ∷ []

abbrev one_chassis : Dict (List (Dict Value))
one_chassis = ("/redfish/v1/Chassis/1", one_firmware ∷ []) ∷ []

-- Every view is made with its model.
abbrev instance_of : Firmware → Instance
instance_of f = with_model (record {
  view_name = f.name;
  view_version = f.version;
  view_updateable = f.updateable;
  view_install_date = f.install_date;
  view_id = f.device_class;
  fqdd_list = [];
  related_list = [];
})

no_views-HaveModels : HaveModels []
unfolding lookup
no_views-HaveModels t i h = absurd (cc h)

scan_inventory-Shown_example :
    (after : Dict Instance) × (scan_inventory str_eq instance_of one_chassis [] ≡ some after)
    × Shown "Installed-20137-1.2"
        (found str_eq one_chassis)
        []
        after
        (is_mentioned "Installed-20137-1.2" (fqdd_pairs (found str_eq one_chassis)))
scan_inventory-Shown_example =
    scan_inventory-Shown str_eq instance_of one_chassis [] "Installed-20137-1.2" (λ f. tt)
      no_views-HaveModels
