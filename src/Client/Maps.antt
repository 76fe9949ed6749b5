-- ===== src/Client/Maps.antt =====
-- The report maps of the HID contexts (components/ble_client_hid/ble_client_hid.cpp).
use esphome_ble_remote.Prelude.{
  ℕ, ◌≡◌, refl, ap, Option, none, some, List, [], ◌∷◌, All, Bool-cases, inl, inr, ◌==◌, subst,
  eq_of_some,
}
use esphome_ble_remote.Schema.ReportMap.{HidReportMap}
use esphome_ble_remote.Decode.Defined.{FieldsExist}
use esphome_ble_remote.Client.Gatt.{HidServiceContext, find_hid_context, update_hid_context}
use esphome_ble_remote.Client.Frame.{report_maps}

-- A report map that is there has the fields that its reports name.
abbrev pub MapExists : Option HidReportMap → Type 0
MapExists none = Unit {0}
MapExists (some m) = FieldsExist m

abbrev pub MapsAreSound : List HidServiceContext → Type 0
MapsAreSound contexts = All MapExists (report_maps contexts)

pub report_maps-update :
    (service_instance : ℕ) (f : HidServiceContext → HidServiceContext)
    (contexts : List HidServiceContext)
    → ((context : HidServiceContext) → (f context).report_map ≡ context.report_map)
    → report_maps (update_hid_context service_instance f contexts) ≡ report_maps contexts
unfolding update_hid_context
report_maps-update service_instance f [] same = refl
report_maps-update service_instance f (context ∷ contexts) same =
    elim (Bool-cases (context.service_instance == service_instance)) [
      | inl this ↦ rw (update_hid_context, this) (ap (λ m. m ∷ report_maps contexts) (same context))
      | inr other ↦
          rw (update_hid_context, other)
            (ap (λ ms. context.report_map ∷ ms)
              (report_maps-update service_instance f contexts same))
    ]

pub update-MapsAreSound :
    (service_instance : ℕ) (f : HidServiceContext → HidServiceContext)
    (contexts : List HidServiceContext)
    → ((context : HidServiceContext) → MapExists (f context).report_map)
    → MapsAreSound contexts
    → MapsAreSound (update_hid_context service_instance f contexts)
unfolding update_hid_context
update-MapsAreSound service_instance f [] new sound = tt
update-MapsAreSound service_instance f (context ∷ contexts) new (first, rest) =
    elim (Bool-cases (context.service_instance == service_instance)) [
      | inl this ↦ rw (update_hid_context, this) (new context, rest)
      | inr other ↦
          rw (update_hid_context, other)
            (first, update-MapsAreSound service_instance f contexts new rest)
    ]

pub find-MapExists :
    (service_instance : ℕ) (contexts : List HidServiceContext) (context : HidServiceContext)
    → find_hid_context service_instance contexts ≡ some context
    → MapsAreSound contexts
    → MapExists context.report_map
unfolding find_hid_context
find-MapExists service_instance [] context e sound = cc
find-MapExists service_instance (first ∷ contexts) context e (one, rest) =
    elim (Bool-cases (first.service_instance == service_instance)) [
      | inl this ↦
          subst (λ (c : HidServiceContext). MapExists c.report_map)
            (eq_of_some first context (rw this at e)) one
      | inr other ↦ find-MapExists service_instance contexts context (rw other at e) rest
    ]
