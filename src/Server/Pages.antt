-- ===== src/Server/Pages.antt =====
-- src/bialet.h: the static headers and pages of the responses, as UTF-8 bytes.
use bialet.Prelude.{[], ◌∷◌, ◌++◌, Bytes, codes}

abbrev pub html_headers : Bytes
html_headers = codes "Content-Type: text/html; charset=UTF-8\r\n"

abbrev pub css_page : Bytes
css_page =
    codes "<style>body{background:#fff;color:#024;font-family:system-ui;font-size"
    ++ (codes ":clamp(1.8rem, 2.5vw, 2rem);line-height:2em;text-align:center;padding:"
        ++ (codes ".5em;max-width:45ch;margin:auto}a{color:#06f;text-decoration:none}a:ho"
            ++ (codes "ver{color:#04f;text-decoration:underline}a:visited{color:#06f}code{col"
                ++ (codes "or:#b00;font-family:inherit}@media (prefers-color-scheme:dark){body{ba"
                    ++ (codes
                          "ckground:#024;color:#fff}a{color:#0bf}a:hover{color:#0ff;text-decorati"
                        ++ (codes
                            "on:underline}a:visited{color:#0bf}code{color:#fa0}}</style>"))))))

abbrev pub header_page : Bytes
header_page = codes "<!DOCTYPE html>" ++ (css_page ++ (codes "<h1>"))

abbrev pub footer_page : Bytes
footer_page =
    codes "</p><p style=\"font-size:.8em;position:fixed;bottom:0;left:0;width:100"
    ++ (codes "%;text-align:center\">Powered by "
        ++ ((0xf0 ∷ 0x9f ∷ 0x9a ∷ 0xb2 ∷ [])
            ++ (codes " <b><a href=\"https://bialet.dev\">Bialet</a></b></p></body></html>")))

abbrev pub welcome_page : Bytes
welcome_page =
    header_page
    ++ ((0xf0 ∷ 0x9f ∷ 0x91 ∷ 0x8b ∷ [])
        ++ (codes " Welcome to Bialet</h1><p>You're in! What's next?</p><p>Check out our "
            ++ (codes "<b><a href=\"https://bialet.dev/getting-started.html\">Getting Started"
                ++ (codes " guide</a></b>." ++ (footer_page)))))

abbrev pub not_found_page : Bytes
not_found_page =
    header_page
    ++ ((0xe2 ∷ 0x9a ∷ 0xa0 ∷ [])
        ++ ((0xef ∷ 0xb8 ∷ 0x8f ∷ [])
            ++ (codes " Not found</h1><p>Uh-oh! No route found." ++ (footer_page))))

abbrev pub error_page : Bytes
error_page =
    header_page
    ++ ((0xf0 ∷ 0x9f ∷ 0x9a ∷ 0xa8 ∷ [])
        ++ (codes " Internal Server Error</h1><p>Oops! Something broke." ++ (footer_page)))

abbrev pub forbidden_page : Bytes
forbidden_page =
    header_page
    ++ ((0xf0 ∷ 0x9f ∷ 0x9a ∷ 0xab ∷ [])
        ++ (codes " Forbidden</h1><p>Sorry, you don't have permission to access this page."
            ++ (footer_page)))

abbrev pub payload_too_large_page : Bytes
payload_too_large_page =
    header_page
    ++ ((0xf0 ∷ 0x9f ∷ 0x93 ∷ 0xa6 ∷ [])
        ++ (codes " Payload Too Large</h1><p>The request body is too large." ++ (footer_page)))

abbrev pub too_many_requests_page : Bytes
too_many_requests_page =
    header_page
    ++ ((0xe2 ∷ 0x8f ∷ 0xb3 ∷ [])
        ++ (codes " Too Many Requests</h1><p>Please slow down and try again later."
            ++ (footer_page)))
