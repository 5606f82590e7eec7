-- ===== src/Points/Uart.antt =====
-- getUARTPointConfig of pkg/dbWriter.go. Every threshold of the table is 0.01.
use module_core_loraraw.Prelude.{
  ℕ, Bool, true, false, List, [], ◌∷◌, Option, none, some, if◌then◌else◌,
}
use module_core_loraraw.Prelude.Text.{codes, text_eq}
use module_core_loraraw.Frame.Layout.{WriteMode, read_only, write_always}
use module_core_loraraw.Points.Store.{
  HistoryType, history_type_interval, history_type_cov_and_interval,
}

pub record UartPointConfig : Type 0 where
  pub name : List ℕ
  pub data_type : List ℕ
  pub write_mode : WriteMode
  pub history_enable : Bool
  pub history_type : HistoryType
  pub history_interval : ℕ
  -- in hundredths
  pub history_cov_threshold : ℕ

abbrev config : List ℕ → List ℕ → WriteMode → Bool → HistoryType → ℕ → UartPointConfig
config name data_type write_mode history_enable history_type history_interval = record {
  name = name;
  data_type = data_type;
  write_mode = write_mode;
  history_enable = history_enable;
  history_type = history_type;
  history_interval = history_interval;
  history_cov_threshold = 1;
}

abbrev pub uart_point_configs : List (List ℕ × UartPointConfig)
uart_point_configs =
    (
      codes "1",
      config (codes "Communication Status") (codes "30") read_only true
          history_type_cov_and_interval 60,
    )
    ∷ (codes "2", config (codes "Unit Type") (codes "30") read_only false history_type_interval 15)
    ∷ (
      codes "3",
      config (codes "Has Economy") (codes "38") read_only false history_type_interval 15,
    )
    ∷ (
      codes "10",
      config (codes "Has Mode Cool") (codes "38") read_only false history_type_interval 15,
    )
    ∷ (
      codes "11",
      config (codes "Has Mode Dry") (codes "38") read_only false history_type_interval 15,
    )
    ∷ (
      codes "12",
      config (codes "Has Mode Fan") (codes "38") read_only false history_type_interval 15,
    )
    ∷ (
      codes "13",
      config (codes "Has Mode Heat") (codes "38") read_only false history_type_interval 15,
    )
    ∷ (
      codes "14",
      config (codes "Has Mode Auto") (codes "38") read_only false history_type_interval 15,
    )
    ∷ (
      codes "15",
      config (codes "Has Fan Auto") (codes "38") read_only false history_type_interval 15,
    )
    ∷ (
      codes "16",
      config (codes "Has Fan High") (codes "38") read_only false history_type_interval 15,
    )
    ∷ (
      codes "17",
      config (codes "Has Fan Medium") (codes "38") read_only false history_type_interval 15,
    )
    ∷ (
      codes "18",
      config (codes "Has Fan Low") (codes "38") read_only false history_type_interval 15,
    )
    ∷ (
      codes "19",
      config (codes "Has Fan Quiet") (codes "38") read_only false history_type_interval 15,
    )
    ∷ (
      codes "20",
      config (codes "Vertical Louver Step Count") (codes "30") read_only false history_type_interval
          15,
    )
    ∷ (
      codes "21",
      config (codes "Has Vertical Louver Swing") (codes "38") read_only false history_type_interval
          15,
    )
    ∷ (
      codes "22",
      config (codes "Vertical Louver 1 Step Count") (codes "30") read_only false
          history_type_interval 15,
    )
    ∷ (
      codes "23",
      config (codes "Has Vertical Louver 1 Swing") (codes "38") read_only false
          history_type_interval 15,
    )
    ∷ (
      codes "24",
      config (codes "Vertical Louver 2 Step Count") (codes "30") read_only false
          history_type_interval 15,
    )
    ∷ (
      codes "25",
      config (codes "Has Vertical Louver 2 Swing") (codes "38") read_only false
          history_type_interval 15,
    )
    ∷ (
      codes "26",
      config (codes "Vertical Louver 3 Step Count") (codes "30") read_only false
          history_type_interval 15,
    )
    ∷ (
      codes "27",
      config (codes "Has Vertical Louver 3 Swing") (codes "38") read_only false
          history_type_interval 15,
    )
    ∷ (
      codes "28",
      config (codes "Vertical Louver 4 Step Count") (codes "30") read_only false
          history_type_interval 15,
    )
    ∷ (
      codes "29",
      config (codes "Has Vertical Louver 4 Swing") (codes "38") read_only false
          history_type_interval 15,
    )
    ∷ (
      codes "30",
      config (codes "Horizontal Louver Step Count") (codes "30") read_only false
          history_type_interval 15,
    )
    ∷ (
      codes "31",
      config (codes "Has Horizontal Louver Swing") (codes "38") read_only false
          history_type_interval 15,
    )
    ∷ (
      codes "32",
      config (codes "Horizontal Louver 1 Step Count") (codes "30") read_only false
          history_type_interval 15,
    )
    ∷ (
      codes "33",
      config (codes "Has Horizontal Louver 1 Swing") (codes "38") read_only false
          history_type_interval 15,
    )
    ∷ (
      codes "34",
      config (codes "Horizontal Louver 2 Step Count") (codes "30") read_only false
          history_type_interval 15,
    )
    ∷ (
      codes "35",
      config (codes "Has Horizontal Louver 2 Swing") (codes "38") read_only false
          history_type_interval 15,
    )
    ∷ (
      codes "36",
      config (codes "Horizontal Louver 3 Step Count") (codes "30") read_only false
          history_type_interval 15,
    )
    ∷ (
      codes "37",
      config (codes "Has Horizontal Louver 3 Swing") (codes "38") read_only false
          history_type_interval 15,
    )
    ∷ (
      codes "38",
      config (codes "Horizontal Louver 4 Step Count") (codes "30") read_only false
          history_type_interval 15,
    )
    ∷ (
      codes "39",
      config (codes "Has Horizontal Louver 4 Swing") (codes "38") read_only false
          history_type_interval 15,
    )
    ∷ (
      codes "40",
      config (codes "Set Operation Status") (codes "38") write_always true
          history_type_cov_and_interval 15,
    )
    ∷ (
      codes "41",
      config (codes "Set Operation Mode") (codes "30") write_always true
          history_type_cov_and_interval 15,
    )
    ∷ (
      codes "42",
      config (codes "Set Temperature") (codes "1") write_always true history_type_cov_and_interval
          15,
    )
    ∷ (
      codes "43",
      config (codes "Set Fan") (codes "30") write_always true history_type_cov_and_interval 15,
    )
    ∷ (
      codes "44",
      config (codes "Vertical Louver Current Position") (codes "30") write_always true
          history_type_cov_and_interval 15,
    )
    ∷ (
      codes "45",
      config (codes "Vertical Louver Swing") (codes "38") write_always true
          history_type_cov_and_interval 15,
    )
    ∷ (
      codes "46",
      config (codes "Vertical Louver 1 Current Position") (codes "30") write_always true
          history_type_cov_and_interval 15,
    )
    ∷ (
      codes "47",
      config (codes "Verticle Louver 1 Swing") (codes "38") write_always true
          history_type_cov_and_interval 15,
    )
    ∷ (
      codes "48",
      config (codes "Vertical Louver 2 Current Position") (codes "30") write_always true
          history_type_cov_and_interval 15,
    )
    ∷ (
      codes "49",
      config (codes "Verticle Louver 2 Swing") (codes "38") write_always true
          history_type_cov_and_interval 15,
    )
    ∷ (
      codes "50",
      config (codes "Vertical Louver 3 Current Position") (codes "30") write_always true
          history_type_cov_and_interval 15,
    )
    ∷ (
      codes "51",
      config (codes "Verticle Louver 3 Swing") (codes "38") write_always true
          history_type_cov_and_interval 15,
    )
    ∷ (
      codes "52",
      config (codes "Vertical Louver 4 Current Position") (codes "30") write_always true
          history_type_cov_and_interval 15,
    )
    ∷ (
      codes "53",
      config (codes "Verticle Louver 4 Swing") (codes "38") write_always true
          history_type_cov_and_interval 15,
    )
    ∷ (
      codes "54",
      config (codes "Horizontal Louver Current Position") (codes "30") write_always true
          history_type_cov_and_interval 15,
    )
    ∷ (
      codes "55",
      config (codes "Horizontal Louver Swing") (codes "38") write_always true
          history_type_cov_and_interval 15,
    )
    ∷ (
      codes "56",
      config (codes "Room Temperature") (codes "1") read_only true history_type_interval 15,
    )
    ∷ (
      codes "57",
      config (codes "Error State") (codes "32") read_only true history_type_cov_and_interval 60,
    )
    ∷ (
      codes "58",
      config (codes "Error Code") (codes "32") read_only true history_type_cov_and_interval 60,
    )
    ∷ (
      codes "59",
      config (codes "Set Economy") (codes "38") write_always true history_type_cov_and_interval 15,
    )
    ∷ []

unfoldable pub find_config : List ℕ → List (List ℕ × UartPointConfig) → Option UartPointConfig
find_config point_id [] = none
find_config point_id ((key, found) ∷ rest) =
    let later = find_config point_id rest in if text_eq key point_id then some found else later

-- A key that the map has not is `none`.
unfoldable pub get_uart_point_config : List ℕ → Option UartPointConfig
unfolding find_config
get_uart_point_config point_id = find_config point_id uart_point_configs
