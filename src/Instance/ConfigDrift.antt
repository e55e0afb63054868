-- ===== src/Instance/ConfigDrift.antt =====
-- packages/core/src/instance/config-drift.ts, and toPublicDrift and configDriftFor of reconcile.ts:
-- how the configuration of a bot differs from the one it should have, and what is shown of that. The
-- names of the operator's settings, which zod makes of their shapes, and the letters of Unicode are
-- parameters.
pub mod Shown
pub mod Readings
pub mod Complete
mod Tests
use open_mcc_manager.Prelude.{
  ℕ, ◌+◌, String, Bool, true, false, not, ◌&&◌, ◌||◌, Option, none, some, List, [], ◌∷◌, ◌++◌, map,
  some_of, ltb, ◌==◌, length, if◌then◌else◌, codes, text_eq,
}
use open_mcc_manager.Instance.McConfig.{
  McConfigScalar, of_text, of_number, of_boolean, McConfigValue, scalar, range, scalars,
  McConfigReading, Document, number_eq, read_mcc_config_keys, section_entries, value_of,
}

abbrev pub Text : Type 0
Text = List ℕ

pub data ConfigDrift : Type 0 where
  managed : (key : Text) (expected : McConfigValue) (actual : Option McConfigValue) → ConfigDrift
  fixed : (key : Text) (expected : McConfigValue) (actual : Option McConfigValue) → ConfigDrift
  operator : (key : Text) (expected : McConfigValue) (actual : Option McConfigValue) → ConfigDrift
  of_section : (section : Text) (entries : ℕ) → ConfigDrift
  unreadable : (key : Text) → ConfigDrift

abbrev pub among : List Text → Text → Bool
among keys key = some_of (text_eq key) keys

-- The lists of keys in packages/core/src/instance/config.ts.
abbrev pub allowed_config_keys : List Text
allowed_config_keys = map codes (
    "Main.General.AccountType" ∷ "Main.General.Account.Login" ∷ "Main.General.Account.Password"
    ∷ "Main.General.Server.Host" ∷ "Main.General.Server.Port" ∷ "Main.Advanced.MinecraftVersion"
    ∷ "Main.Advanced.AutoRespawn" ∷ "ChatBot.McpServer.Enabled" ∷ "ChatBot.McpServer.Transport.Port"
    ∷ "Main.Advanced.TerrainAndMovements" ∷ "Main.Advanced.InventoryHandling"
    ∷ "Main.Advanced.EntityHandling" ∷ "ChatBot.McpServer.Capabilities.SessionStatus"
    ∷ "ChatBot.McpServer.Capabilities.Inventory" ∷ "ChatBot.McpServer.Capabilities.EntityWorld"
    ∷ "ChatBot.AutoRelog.Enabled" ∷ "ChatBot.AutoRelog.Retries" ∷ "ChatBot.AutoRelog.Delay"
    ∷ "ChatBot.AntiAFK.Enabled" ∷ "ChatBot.AntiAFK.Delay" ∷ [])

abbrev pub fixed_config_keys : List Text
fixed_config_keys = map codes (
    "Main.Advanced.EnableSentry" ∷ "Main.Advanced.ShowGithubStarReminder"
    ∷ "Console.General.ConsoleMode" ∷ "Logging.LogToFile" ∷ "Main.Advanced.ExitOnFailure"
    ∷ "Main.Advanced.IgnoreInvalidPlayerName" ∷ "Main.Advanced.InternalCmdChar"
    ∷ "Main.General.Method" ∷ "ChatBot.McpServer.Transport.BindHost"
    ∷ "ChatBot.McpServer.Transport.Route" ∷ "ChatBot.McpServer.Transport.RequireAuthToken"
    ∷ "ChatBot.McpServer.Transport.AuthTokenEnvVar"
    ∷ "ChatBot.McpServer.Capabilities.ChatAndCommands" ∷ "ChatBot.McpServer.Capabilities.Movement"
    ∷ "Main.Advanced.BotOwners" ∷ "ChatBot.Map.Send_Rendered_To_Discord"
    ∷ "ChatBot.Map.Send_Rendered_To_Telegram" ∷ "ChatBot.ChatLog.Enabled"
    ∷ "ChatBot.Alerts.Log_To_File" ∷ "ChatBot.Map.Save_To_File" ∷ "ChatBot.AutoRespond.Enabled"
    ∷ "ChatBot.ScriptScheduler.Enabled" ∷ "ChatBot.DiscordBridge.Enabled"
    ∷ "ChatBot.TelegramBridge.Enabled" ∷ [])

abbrev pub emptied_config_sections : List Text
emptied_config_sections = map codes ("Main.Advanced.AccountList" ∷ "Main.Advanced.ServerList" ∷ [])

unfoldable pub is_secret_key : Text → Bool
is_secret_key = among (map codes ("Main.General.Account.Password" ∷ []))

expands_on_the_client : Text → Bool
expands_on_the_client = among (map codes ("ChatBot.PlayerListLogger.File" ∷ []))

scalar_eq : McConfigScalar → McConfigScalar → Bool
scalar_eq (of_text a) (of_text b) = text_eq a b
scalar_eq (of_number a) (of_number b) = number_eq a b
scalar_eq (of_boolean true) (of_boolean b) = b
scalar_eq (of_boolean false) (of_boolean b) = not b
scalar_eq _ _ = false

-- Lists of the same length, the same at each index.
scalars_eq : List McConfigScalar → List McConfigScalar → Bool
unfolding scalar_eq
scalars_eq [] [] = true
scalars_eq (a ∷ as') (b ∷ bs) = scalar_eq a b && scalars_eq as' bs
scalars_eq _ _ = false

pub same_config_value : McConfigValue → Option McConfigValue → Bool
unfolding scalar_eq scalars_eq
same_config_value (scalars want) (some (scalars have)) = scalars_eq want have
same_config_value (scalar want) (some (scalar have)) = scalar_eq want have
same_config_value (range min max) (some (range min' max')) =
    number_eq min min' && number_eq max max'
same_config_value _ _ = false

module _ (is_word : ℕ → Bool) where
  -- `%[\p{L}\p{Nd}_]+%`, after its first percent sign.
  variable_after : Bool → Text → Bool
  variable_after seen [] = false
  variable_after seen (c ∷ cs) =
      let rest = variable_after true cs in if c == b'%' then seen else is_word c && rest

  has_client_variable : Text → Bool
  unfolding variable_after
  has_client_variable [] = false
  has_client_variable (c ∷ cs) = ((c == b'%') && variable_after false cs) || has_client_variable cs

  pub unsafe_expansion : Text → Option McConfigValue → Bool
  unfolding has_client_variable expands_on_the_client
  unsafe_expansion key (some (scalar (of_text have))) =
      expands_on_the_client key && has_client_variable have
  unsafe_expansion key _ = false

module _ (is_word : ℕ → Bool) (operator_keys : List Text) where
  pub all_keys : List Text
  all_keys = allowed_config_keys ++ fixed_config_keys ++ operator_keys

  -- The drift of one key whose value is expected and is not the same.
  differing : Text → McConfigValue → Option McConfigValue → ConfigDrift
  unfolding unsafe_expansion
  differing key want have =
      if unsafe_expansion is_word key have
      then fixed key want have
      else if among operator_keys key
      then operator key want have
      else if among fixed_config_keys key
      then fixed key want have
      else managed key want have

  pub key_drift : Text → Option McConfigValue → Option McConfigValue → List ConfigDrift
  unfolding differing
  key_drift key none have = []
  key_drift key (some want) have =
      if same_config_value want have then [] else differing key want have ∷ []

  -- The loop over the keys.
  value_drift : McConfigReading → McConfigReading → List Text → List ConfigDrift
  unfolding key_drift
  value_drift expected actual [] = []
  value_drift expected actual (key ∷ keys) =
      key_drift key (value_of key expected.values) (value_of key actual.values)
      ++ value_drift expected actual keys

  abbrev is_about : Text → ConfigDrift → Bool
  is_about key (managed other _ _) = text_eq other key
  is_about key (fixed other _ _) = text_eq other key
  is_about key (operator other _ _) = text_eq other key
  is_about key (of_section _ _) = false
  is_about key (unreadable other) = text_eq other key

  -- The loop over the unreadable keys; `all_keys` has all that were read.
  add_unreadable : List Text → List ConfigDrift → List ConfigDrift
  add_unreadable [] drift = drift
  add_unreadable (key ∷ keys) drift = add_unreadable keys (
      if not (among all_keys key) || some_of (is_about key) drift
      then drift
      else drift ++ unreadable key ∷ [])

  section_drift : Text → Option ℕ → List ConfigDrift
  section_drift section none = []
  section_drift section (some entries) =
      if ltb 0 entries then of_section section entries ∷ [] else []

  sections_drift : Document → List Text → List ConfigDrift
  unfolding section_drift
  sections_drift actual [] = []
  sections_drift actual (section ∷ sections) =
      section_drift section (section_entries actual section) ++ sections_drift actual sections

  pub compare_documents : Document → Document → List ConfigDrift
  unfolding add_unreadable value_drift sections_drift
  compare_documents expected actual =
      let want = read_mcc_config_keys expected all_keys in
      let have = read_mcc_config_keys actual all_keys in
      add_unreadable have.unreadable (value_drift want have all_keys)
      ++ sections_drift actual emptied_config_sections
