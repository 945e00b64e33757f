-- ===== src/Api/Easy.antt =====
-- `struct curlObjData` and `struct MemoryStruct` of generic/tclcurl.h, without the fields that link
-- an easy handle to a share handle (they are in Share) and those of the form API before curl 7.56.
use tclcurl_ng.Base.{ℕ, ℤ, negsuc, String, List, [], Option, none, Bool, false}

pub record MemoryStruct : Type 0 where
  pub memory : List ℕ
  pub size : ℕ

-- A NULL string is `none`, a NULL slist the empty list, a NULL `FILE *` or `curl_mime *` is 0.
pub record CurlObjData : Type 0 where
  pub curl : ℕ
  pub token : ℕ
  pub header_list : List String
  pub quote : List String
  pub prequote : List String
  pub postquote : List String
  pub out_file : Option String
  pub out_handle : ℕ
  pub out_flag : Bool
  pub in_file : Option String
  pub in_handle : ℕ
  pub in_flag : Bool
  pub post_fields : Option String
  pub post_field_size : ℤ
  pub transfer_text : ℤ
  pub error_buffer : Bool
  pub error_buffer_name : Option String
  pub error_buffer_key : Option String
  pub header_file : Option String
  pub header_handle : ℕ
  pub header_flag : Bool
  pub stderr_file : Option String
  pub stderr_handle : ℕ
  pub stderr_flag : Bool
  pub header_var : Option String
  pub body_var_name : Option String
  pub body_var : MemoryStruct
  pub progress_proc : Option String
  pub cancel_trans_var_name : Option String
  pub cancel_trans : Bool
  pub write_proc : Option String
  pub read_proc : Option String
  pub debug_proc : Option String
  pub http200aliases : List String
  pub command : Option String
  pub any_auth_flag : Bool
  pub sshkeycall_proc : Option String
  pub mailrcpt : List String
  pub chunk_bgn_proc : Option String
  pub chunk_bgn_var : Option String
  pub chunk_end_proc : Option String
  pub fnmatch_proc : Option String
  pub resolve : List String
  pub telnetoptions : List String
  pub mime : ℕ

-- The struct after `memset` to 0, with the fields that init and reset set again.
abbrev pub blank : (curl token : ℕ) → CurlObjData
blank curl token = record {
  curl = curl;
  token = token;
  header_list = [];
  quote = [];
  prequote = [];
  postquote = [];
  out_file = none;
  out_handle = 0;
  out_flag = false;
  in_file = none;
  in_handle = 0;
  in_flag = false;
  post_fields = none;
  post_field_size = negsuc 0;
  transfer_text = ℤ.pos 0;
  error_buffer = false;
  error_buffer_name = none;
  error_buffer_key = none;
  header_file = none;
  header_handle = 0;
  header_flag = false;
  stderr_file = none;
  stderr_handle = 0;
  stderr_flag = false;
  header_var = none;
  body_var_name = none;
  body_var = record { memory = []; size = 0 };
  progress_proc = none;
  cancel_trans_var_name = none;
  cancel_trans = false;
  write_proc = none;
  read_proc = none;
  debug_proc = none;
  http200aliases = [];
  command = none;
  any_auth_flag = false;
  sshkeycall_proc = none;
  mailrcpt = [];
  chunk_bgn_proc = none;
  chunk_bgn_var = none;
  chunk_end_proc = none;
  fnmatch_proc = none;
  resolve = [];
  telnetoptions = [];
  mime = 0;
}
