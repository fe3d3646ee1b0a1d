-- ===== src/Tests/Texts.antt =====
-- src/utils.c and src/livereload.c: a trimmed text, and a page with the reload script.
use bialet.Utils.Trim.{trim}
use bialet.Utils.Trim.Trimmed.{Trims, trim-Trims}
use bialet.LiveReload.{LiveReload, is_html, script, inject, body_bytes, livereload_inject_response}
use bialet.LiveReload.Inject.{Injected, livereload_inject_response-Injected}
use bialet.Server.Response.{Response, empty_response, write_response, response_head}
use bialet.Prelude.Search.{find}
use bialet.Prelude.{starts_with, ◌≡◌, refl, true, some, ◌++◌, Bytes, codes, length}

trim_both : trim (codes " \t a b \n") ≡ codes "a b"
unfolding trim
trim_both = refl

trim_both-Trims : Trims (codes " \t a b \n") (trim (codes " \t a b \n"))
trim_both-Trims = trim-Trims (codes " \t a b \n")

abbrev page : Bytes
page = codes "<body>hi</body></html>"

abbrev page_response : Response
page_response = record empty_response {
  status = 200;
  header = some (codes "Content-Type: text/html\r\n");
  body = some page;
  length_field = length page;
}

abbrev watching : LiveReload
watching = record { enabled = true; shared_version = some 7 }

inject_page :
    (livereload_inject_response watching page_response).body
    ≡ some (codes "<body>hi" ++ (script ++ codes "</body></html>"))
unfolding livereload_inject_response inject find starts_with
inject_page = refl

page_is_html : is_html page_response.header ≡ true
unfolding is_html find starts_with
page_is_html = refl

livereload_inject_response-Injected_example :
    (new : Bytes) × Injected (body_bytes page_response) new
    × (write_response (livereload_inject_response watching page_response)
        ≡ response_head (livereload_inject_response watching page_response) ++ new)
livereload_inject_response-Injected_example =
    livereload_inject_response-Injected watching page_response refl page_is_html
