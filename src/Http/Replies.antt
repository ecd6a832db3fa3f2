-- ===== src/Http/Replies.antt =====
-- proxy/psahttp/httpmessage.C and hookpsahttpimpl.C: the replies to a request, and where it goes. The
-- applications, the scripts, the files, the map of services and the HTML writer CHtml are parameters.
use tsm_proxy.Prelude.{ℕ, Option, none, some, List, [], ◌∷◌, ◌++◌, ◌==◌, if◌then◌else◌, length}
use tsm_proxy.Chars.{bytes, same, before, c_string}
use tsm_proxy.Cstr.Codes.{html_bytes}
use tsm_proxy.Http.{HttpMessage}
use tsm_proxy.Http.Client.{decimal, int_text}

abbrev reversed : List ℕ → List ℕ → List ℕ
reversed acc [] = acc
reversed acc (c ∷ cs) = reversed (c ∷ acc) cs

-- The loop of pathExt, backwards from the character in front of the last one; the first character of
-- the path is not looked at. `acc` is the text behind the pointer.
unfoldable pub scan_ext : List ℕ → List ℕ → Option (List ℕ)
scan_ext acc [] = none
scan_ext acc (c ∷ []) = none
scan_ext acc (c ∷ d ∷ r) =
    let more = scan_ext (c ∷ acc) (d ∷ r) in
    if c == 47 then none else if c == 46 then some acc else more

abbrev last_of : List ℕ → Option (List ℕ)
last_of [] = none
last_of (c ∷ r) = scan_ext (c ∷ []) r

unfoldable pub path_ext : List ℕ → Option (List ℕ)
unfolding scan_ext
path_ext path = last_of (reversed [] path)

-- g_httpCodeTable, the entries that are not empty.
unfoldable pub code_table : List (ℕ × List ℕ)
code_table =
    (100, bytes "Continue")
    ∷ (101, bytes "Switching Protocols")
    ∷ (200, bytes "OK")
    ∷ (201, bytes "Created")
    ∷ (202, bytes "Accepted")
    ∷ (203, bytes "Non-Authoritative Information")
    ∷ (204, bytes "No Content")
    ∷ (205, bytes "Reset Content")
    ∷ (206, bytes "Partial Content")
    ∷ (300, bytes "Multiple Choices")
    ∷ (301, bytes "Moved Permanently")
    ∷ (302, bytes "Found")
    ∷ (303, bytes "See Other")
    ∷ (304, bytes "Not Modified")
    ∷ (305, bytes "Use Proxy")
    ∷ (307, bytes "Temporary Redirect")
    ∷ (400, bytes "Bad Request")
    ∷ (401, bytes "Unauthorized")
    ∷ (402, bytes "Payment Required")
    ∷ (403, bytes "Forbidden")
    ∷ (404, bytes "Not Found")
    ∷ (405, bytes "Method Not Allowed")
    ∷ (406, bytes "Not Acceptable")
    ∷ (407, bytes "Proxy Authentication Required")
    ∷ (408, bytes "Request Timeout")
    ∷ (409, bytes "Conflict")
    ∷ (410, bytes "Gone")
    ∷ (411, bytes "Length Required")
    ∷ (412, bytes "Precondition Failed")
    ∷ (413, bytes "Request Entity Too Large")
    ∷ (414, bytes "Request-URI Too Long")
    ∷ (415, bytes "Unsupported Media Type")
    ∷ (416, bytes "Requested Range Not Satisfiable")
    ∷ (417, bytes "Expectation Failed")
    ∷ (500, bytes "Internal Server Error")
    ∷ (501, bytes "Not Implemented")
    ∷ (502, bytes "Bad Gateway")
    ∷ (503, bytes "Service Unavailable")
    ∷ (504, bytes "Gateway Timeout")
    ∷ (505, bytes "HTTP Version Not Supported")
    ∷ []

abbrev find_code : ℕ → List (ℕ × List ℕ) → List ℕ
find_code code [] = bytes "Unknown"
find_code code ((n, s) ∷ r) = let later = find_code code r in if code == n then s else later

unfoldable pub http_code_str : ℕ → List ℕ
unfolding code_table
http_code_str code = find_code code code_table

-- g_mimeFileExtTypeMapTable
unfoldable pub type_table : List (List ℕ × List ℕ)
type_table =
    (bytes "html", bytes "text/html")
    ∷ (bytes "js", bytes "application/x-javascript")
    ∷ (bytes "css", bytes "text/css")
    ∷ (bytes "jpg", bytes "image/jpeg")
    ∷ (bytes "jpeg", bytes "image/jpeg")
    ∷ (bytes "gif", bytes "image/gif")
    ∷ (bytes "ico", bytes "image/ico")
    ∷ (bytes "png", bytes "image/png")
    ∷ (bytes "mpeg", bytes "video/mpeg")
    ∷ (bytes "wav", bytes "audio/x-wav")
    ∷ (bytes "midi", bytes "audio/x-midi")
    ∷ (bytes "avi", bytes "video/x-msvideo")
    ∷ (bytes "xml", bytes "text/xml")
    ∷ (bytes "vxml", bytes "text/vxml")
    ∷ (bytes "txt", bytes "text/plain")
    ∷ (bytes "text", bytes "text/plain")
    ∷ (bytes "si", bytes "text/vnd.wap.si")
    ∷ (bytes "smil", bytes "application/smil")
    ∷ (bytes "pdf", bytes "application/unknow")
    ∷ (bytes "doc", bytes "application/unknow")
    ∷ (bytes "docx", bytes "application/unknow")
    ∷ (bytes "rar", bytes "application/unknow")
    ∷ (bytes "zip", bytes "application/unknow")
    ∷ (bytes "tgz", bytes "application/unknow")
    ∷ (bytes "gz", bytes "application/unknow")
    ∷ []

abbrev find_type : List ℕ → List (List ℕ × List ℕ) → Option (List ℕ)
find_type ext [] = none
find_type ext ((e, t) ∷ r) = let later = find_type ext r in if same e ext then some t else later

unfoldable pub mime_file_ext_type : List ℕ → Option (List ℕ)
unfolding type_table same before
mime_file_ext_type ext = find_type (c_string ext) type_table

-- The lines of a reply in front of its content, whose length is given.
abbrev pub reply_head : List ℕ → ℕ → List ℕ → List ℕ
reply_head version n kind =
    version
    ++ (bytes " 200 OK\r\nContent-Length: "
        ++ (decimal n ++ (bytes "\r\nContent-Type: " ++ (kind ++ bytes "\r\n\r\n"))))

unfoldable pub gen_response_message : HttpMessage → List ℕ → List ℕ → List ℕ
unfolding before
gen_response_message m kind content =
    reply_head (c_string m.version) (length content) kind ++ content

-- A page of CHtml: the title, and the elements with their texts.
module _ (html : List ℕ → List (List ℕ × List ℕ) → List ℕ) where
  unfoldable pub gen_error_message : HttpMessage → ℕ → List ℕ → List ℕ
  unfolding http_code_str before
  gen_error_message m code info =
      let s = http_code_str code in
      let page = html s ((bytes "h1", s) ∷ (bytes "p", info) ∷ []) in
      reply_head (c_string m.version) (length page) (bytes "text/html") ++ page

  module _ (file : List ℕ → List ℕ) where
    abbrev with_file : HttpMessage → List ℕ → List ℕ → List ℕ → List ℕ
    with_file m kind name [] =
        gen_error_message m 400 (bytes "file '" ++ (name ++ bytes "' not existed or size is 0"))
    with_file m kind name (c ∷ cs) =
        reply_head (c_string m.version) (length (c ∷ cs)) kind ++ c ∷ cs

    abbrev with_type : HttpMessage → Option (List ℕ) → List ℕ
    with_type m none = gen_error_message m 400 (bytes "invalid ext")
    with_type m (some kind) =
        let name = c_string (bytes "/app/" ++ m.path) in with_file m kind name (file name)

    abbrev with_ext : HttpMessage → Option (List ℕ) → List ℕ
    with_ext m none = gen_error_message m 400 (bytes "no ext")
    with_ext m (some ext) = with_type m (mime_file_ext_type ext)

    unfoldable pub gen_file_response_message : HttpMessage → List ℕ
    unfolding gen_error_message path_ext mime_file_ext_type before
    gen_file_response_message m = with_ext m (path_ext m.path)

  abbrev print_text : HttpMessage → List ℕ
  print_text m =
      bytes "linkid = "
      ++ (decimal m.link_id
          ++ (bytes "\n\nmethod = "
              ++ (m.method
                  ++ (bytes "\npath = "
                      ++ (m.path
                          ++ (bytes "\nquery = "
                              ++ (m.query
                                  ++ (bytes "\nversion = "
                                      ++ (m.version
                                          ++ (bytes "\ncontentLength = "
                                              ++ (int_text m.content_length ++ 10 ∷ [])))))))))))

  unfoldable pub gen_test_response_message : HttpMessage → List ℕ
  unfolding html_bytes int_text
  gen_test_response_message m =
      let page = html (bytes "psahttp self test") (
        (bytes "div", html_bytes m.source_content)
        ∷ (bytes "div", html_bytes (print_text m))
        ∷ []) in
      reply_head (c_string m.version) (length page) (bytes "text/html") ++ page
