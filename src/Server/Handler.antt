-- ===== src/Server/Handler.antt =====
-- src/server.c: `handle_client`, from the segments on the socket to the bytes of the answer.
pub mod Answers
use bialet.LiveReload.{LiveReload, livereload_try_handle, livereload_inject_response}
use bialet.Prelude.{
  ◌-◌, Bool, false, ◌&&◌, Option, none, some, ltb, ◌==◌, if◌then◌else◌, Bytes, codes, str_eq,
  length, drop,
}
use bialet.Server.CustomError.{Config, custom_error, with_length}
use bialet.Server.Locate.{Located, forbidden, missing, file, locate}
use bialet.Server.Pages.{html_headers, welcome_page}
use bialet.Server.PrivatePath.{path_basename}
use bialet.Server.Reader.{Socket, Received, closed, too_large, request, receive}
use bialet.Server.Request.{parse_request}
use bialet.Server.Response.{Response, empty_response, get_content_type, write_response}
use bialet.Utils.Path.{open_file_no_follow}
use bialet.World.{World, HttpMessage}

-- How a connection ends: with no answer, with the favicon, or with a response.
pub data Outcome : Type 0 where
  hang_up : Outcome
  favicon : Outcome
  answer : Response → Outcome

-- The name's suffix is `.wren`, and there is a name before it.
unfoldable pub is_wren_file : Bytes → Bool
is_wren_file path =
    let base = path_basename path in
    ltb 5 (length base) && str_eq (drop (length base - 5) base) (codes ".wren")

-- The file that has been opened and read.
unfoldable pub serve_content : World → HttpMessage → Bytes → Bytes → Response
serve_content w hm path content =
    let r = w.bialet_run path content (some hm) in
    if is_wren_file path then with_length r.body r else record {
      status = 200;
      header = some (get_content_type path);
      body = some content;
      length_field = length content;
      body_owned = false;
      header_owned = false;
    }

welcome : Bytes → Response
welcome uri =
    if str_eq uri (codes "/")
    then record empty_response {
      status = 200;
      header = some html_headers;
      body = some welcome_page;
      length_field = length welcome_page;
    }
    else empty_response

opened : World → LiveReload → HttpMessage → Bytes → Option Bytes → Outcome
opened w l hm path none = hang_up
opened w l hm path (some content) =
    answer (livereload_inject_response l (serve_content w hm path content))

unfoldable pub serve : World → Config → LiveReload → HttpMessage → Located → Outcome
unfolding opened welcome
serve w cfg l hm forbidden = answer (custom_error w cfg false 403)
serve w cfg l hm missing = answer (livereload_inject_response l (welcome hm.uri))
serve w cfg l hm (file path routes) =
    opened w l (record hm { routes = routes }) path (open_file_no_follow w path)

abbrev livereload_answer : Option Response → Outcome → Outcome
livereload_answer none other = other
livereload_answer (some r) other = answer r

unfoldable pub respond : World → Config → LiveReload → HttpMessage → Outcome
unfolding serve
respond w cfg l hm =
    if str_eq (codes "/favicon.ico") hm.uri
    then favicon
    else livereload_answer (livereload_try_handle l hm.uri) (serve w cfg l hm (locate w cfg hm))

unfoldable pub handle_received : World → Config → LiveReload → Received → Outcome
unfolding respond
handle_received w cfg l closed = hang_up
handle_received w cfg l (too_large rest) = answer (custom_error w cfg false 413)
handle_received w cfg l (request full_request) = respond w cfg l (parse_request full_request)

-- `write_response` gives a response with no status the 404 page first.
unfoldable pub settled : World → Config → Response → Response
settled w cfg r = if r.status == 0 then custom_error w cfg false 404 else r

-- The bytes of `FAVICON_RESPONSE` and `favicon_data`, which favicon.h holds.
unfoldable pub sent : World → Config → Bytes → Outcome → Option Bytes
sent w cfg icon hang_up = none
sent w cfg icon favicon = some icon
sent w cfg icon (answer r) = some (write_response (settled w cfg r))

unfoldable pub handle_client : World → Config → LiveReload → Bytes → Socket → Option Bytes
unfolding handle_received sent
handle_client w cfg l icon socket =
    sent w cfg icon (handle_received w cfg l (receive cfg.max_post_size socket))
