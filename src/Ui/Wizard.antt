-- ===== src/Ui/Wizard.antt =====
-- crates/ui/src/wizard.rs: the pages of the first start.
use v2ray_rs.Models.Settings.{AppSettings, BackendType, default_settings}
use v2ray_rs.Base.{
  ℕ, ◌+◌, String, true, not, Option, none, some, [], ◌∷◌, if◌then◌else◌, is_some, unwrap_or,
  is_empty_str, trim, strip_prefix, split,
}

pub record OnboardingWizard : Type 0 where
  pub settings : AppSettings
  pub selected_backend : Option (BackendType × String)
  pub current_page : ℕ
  pub subscription_name : String
  pub subscription_url : String

pub data WizardMsg : Type 0 where
  next_page : WizardMsg
  backend_selected : BackendType → String → WizardMsg
  subscription_name_changed : String → WizardMsg
  subscription_url_changed : String → WizardMsg
  import_subscription skip_subscription complete : WizardMsg

-- `WizardOutput::Complete`
pub record Completed : Type 0 where
  pub settings : AppSettings
  pub subscription : Option (String × String)

abbrev pub init : OnboardingWizard
init = record {
  settings = default_settings;
  selected_backend = none;
  current_page = 0;
  subscription_name = "";
  subscription_url = "";
}

-- `split("://").nth(1)`: what stands after the first separator, up to the next
abbrev pub before_separator : String → String
before_separator String.[] = ""
before_separator (String.◌∷◌ c s) =
    let rest = before_separator s in
    if is_some (strip_prefix "://" (String.◌∷◌ c s)) then "" else String.◌∷◌ c rest

abbrev pub after_separator : String → Option String
after_separator String.[] = none
after_separator (String.◌∷◌ c s) =
    let rest = after_separator s in
    elim (strip_prefix "://" (String.◌∷◌ c s)) [ some t ↦ some (before_separator t) | none ↦ rest ]

-- the first part of a text that is split
abbrev pub first_part : ℕ → String → String
first_part n s = elim (split n s) [ [] ↦ "" | w ∷ _ ↦ w ]

unfoldable pub extract_host : String → Option String
extract_host url =
    let host = first_part b':' (first_part b'/' (unwrap_or (after_separator url) url)) in
    if is_empty_str host then none else some host

abbrev pub chosen_name : OnboardingWizard → String
chosen_name w =
    if is_empty_str (trim w.subscription_name)
    then unwrap_or (extract_host w.subscription_url) "Subscription"
    else w.subscription_name

abbrev pub completed : OnboardingWizard → Completed
completed w = record {
  settings = record w.settings { onboarding_complete = true };
  subscription =
      if not (is_empty_str w.subscription_url)
      then some (chosen_name w, w.subscription_url)
      else none;
}

-- the wizard, and its output
unfoldable pub update : WizardMsg → OnboardingWizard → OnboardingWizard × Option Completed
unfolding extract_host
update next_page w = (record w { current_page = w.current_page + 1 }, none)
update (backend_selected backend_type binary_path) w = (
  record w {
    selected_backend = some (backend_type, binary_path);
    settings = record w.settings {
      backend = record {
        backend_type = backend_type;
        binary_path = some binary_path;
        config_output_dir = none;
      };
    };
  },
  none,
)
update (subscription_name_changed name) w = (record w { subscription_name = name }, none)
update (subscription_url_changed url) w = (record w { subscription_url = url }, none)
update import_subscription w =
    (if not (is_empty_str w.subscription_url) then record w { current_page = 3 } else w, none)
update skip_subscription w = (record w { current_page = 3 }, none)
update complete w = (w, some (completed w))
