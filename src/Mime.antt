-- ===== src/Mime.antt =====
-- generic/curl_mime.c, as it is compiled for curl 7.56 and later: building the parts of a multipart
-- form, and giving the data of a POST to libcurl before a transfer and dropping it afterwards.
pub mod Transfer
pub mod Pairs
use Prim.Native.String.{len, count}
use tclcurl_ng.Base.{
  ℕ, zero, suc, ℤ, pos, String, List, [], ◌∷◌, Option, none, some, ◌==◌, if◌then◌else◌,
}
use tclcurl_ng.Api.{
  Tcl, Answers, Call, mime_init, mime_addpart, mime_name, mime_data, mime_filedata, mime_type,
  mime_filename, mime_headers,
}
use tclcurl_ng.Api.Monad.{
  Status, ok, error, fault, M, pure, ◌>>=◌, ◌>>◌, get, modify, call, set_result, tcl_message,
}
use tclcurl_ng.TclSize.{tcl_size_to_size_t}
use tclcurl_ng.Options.{OptionDef, error_set_opt}

abbrev pub curl_form_table : List String
curl_form_table =
    "name" ∷ "contents" ∷ "file" ∷ "contenttype" ∷ "contentheader" ∷ "filename" ∷ "bufferName"
    ∷ "buffer" ∷ "filecontent" ∷ []

-- The indices of curlFormIndices. An index outside the table does not occur.
pub data FormOption : Type 0 where
  name contents file contenttype contentheader filename buffername buffer : FormOption
  filecontent no_option : FormOption

abbrev pub form_option : ℕ → FormOption
form_option zero = name
form_option (suc zero) = contents
form_option (suc (suc zero)) = file
form_option (suc (suc (suc zero))) = contenttype
form_option (suc (suc (suc (suc zero)))) = contentheader
form_option (suc (suc (suc (suc (suc zero))))) = filename
form_option (suc (suc (suc (suc (suc (suc zero)))))) = buffername
form_option (suc (suc (suc (suc (suc (suc (suc zero))))))) = buffer
form_option (suc (suc (suc (suc (suc (suc (suc (suc zero)))))))) = filecontent
form_option (suc (suc (suc (suc (suc (suc (suc (suc (suc i))))))))) = no_option

module _ (tcl : Tcl) (ask : Answers) (def : OptionDef) where
  unfoldable pub add_headers : ℕ → Option (List String) → M Status
  unfolding error_set_opt
  add_headers part none = do error_set_opt def "Header list invalid"; pure error
  add_headers part (some headers) = do call ask (mime_headers part headers); pure ok

  -- `size` is the length that the Tcl object reports.
  unfoldable pub add_data : ℕ → String → Option ℕ → M Status
  unfolding error_set_opt
  add_data part v none = do error_set_opt def "Inconsistent buffer size"; pure error
  add_data part v (some size) = do call ask (mime_data part v size); pure ok

  -- The `switch` of TclCurl_HandleHttpPost; `v` is httpPostData[++arg_p].
  unfoldable pub add_to_part : ℕ → FormOption → String → M Status
  unfolding add_headers add_data
  add_to_part part name v = do call ask (mime_name part v); pure ok
  add_to_part part contents v = add_data part v (tcl_size_to_size_t (pos (len v)))
  add_to_part part file v = do call ask (mime_filedata part v); pure ok
  add_to_part part contenttype v = do call ask (mime_type part v); pure ok
  add_to_part part contentheader v = add_headers part (tcl.list_elements v)
  add_to_part part filename v = do call ask (mime_filename part v); pure ok
  add_to_part part buffername v = do call ask (mime_filename part v); pure ok
  add_to_part part buffer v = add_data part v (tcl_size_to_size_t (pos (count v)))
  add_to_part part filecontent v = do call ask (mime_filedata part v); pure ok
  add_to_part part no_option v = pure ok

  abbrev pub proceed : Status → M Status → M Status
  proceed ok rest = rest
  proceed other rest = pure other

  -- One turn of the `while` loop: an unknown word is an error before the value is read; a word that
  -- ends the list is followed by a read behind the array.
  unfoldable pub one_pair : ℕ → Option ℕ → Option String → M Status
  one_pair part none v = do set_result tcl_message; pure error
  one_pair part (some i) none = pure fault
  one_pair part (some i) (some v) = add_to_part part (form_option i) v

  unfoldable pub add_pairs : ℕ → List String → M Status
  add_pairs part [] = pure ok
  add_pairs part (k ∷ []) = one_pair part (tcl.get_index curl_form_table k) none
  add_pairs part (k ∷ v ∷ rest) =
      let later = add_pairs part rest in
      (do status ← one_pair part (tcl.get_index curl_form_table k) (some v); proceed status later)

  unfoldable pub add_part : List String → M Status
  unfolding error_set_opt
  add_part xs = do
    d ← get
    part ← call ask (mime_addpart d.mime)
    if part == 0
        then (do error_set_opt def "Could not append MIME part"; pure error)
        else add_pairs part xs

  unfoldable pub with_mime : List String → M Status
  unfolding error_set_opt
  with_mime xs = do
    d ← get
    if d.mime == 0
        then (do
          mime ← call ask (mime_init d.curl)
          modify λ d. record d { mime = mime }
          if mime == 0
              then (do error_set_opt def "Could not initialize MIME data"; pure error)
              else add_part xs)
        else add_part xs

  -- TclCurl_HandleHttpPost
  unfoldable pub handle_http_post : Option (List String) → M Status
  handle_http_post none = do set_result tcl_message; pure error
  handle_http_post (some xs) = with_mime xs
