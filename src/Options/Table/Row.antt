-- ===== src/Options/Table/Row.antt =====
-- One X(...) entry of the option table of generic/curl_setopts.h.
use tclcurl_ng.Base.{String, Option}
use tclcurl_ng.Options.{OptionDef, Handler}

abbrev pub row : String → String → Handler → String → Option String → OptionDef
row option_name config_name handler curl_opt error_message = record {
  option_name = option_name;
  config_name = config_name;
  handler = handler;
  curl_opt = curl_opt;
  error_message = error_message;
}
