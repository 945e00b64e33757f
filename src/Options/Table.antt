-- ===== src/Options/Table.antt =====
-- The option table of generic/curl_setopts.h in its default configuration, in which no deprecated
-- option is compiled in, and the word tables made from it.
pub mod Names
pub mod Row
pub mod First
pub mod Second
pub mod Third
use tclcurl_ng.Base.{String, List, ◌++◌, map}
use tclcurl_ng.Options.{OptionDef}
use First.{first_rows}
use Second.{second_rows}
use Third.{third_rows}

-- curlOptionDefs
unfoldable pub curl_option_defs : List OptionDef
curl_option_defs = first_rows ++ (second_rows ++ third_rows)

-- optionTable, for setopt
unfoldable pub option_table : List String
unfolding curl_option_defs
option_table = map (λ def. def.option_name) curl_option_defs

-- configTable, for configure
unfoldable pub config_table : List String
unfolding curl_option_defs
config_table = map (λ def. def.config_name) curl_option_defs
