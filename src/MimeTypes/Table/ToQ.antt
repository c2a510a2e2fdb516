-- ===== src/MimeTypes/Table/ToQ.antt =====
-- libs/static_files/src/static_files_types.inl: the rows from oa2 to qxt.
use Prim.Native.String.{String}
use mathlib.Core.List.{List, [], ◌∷◌}

unfoldable pub types_to_q : List (String × String)
types_to_q =
    ("oa2", "application/vnd.fujitsu.oasys2")
    ∷ ("oa3", "application/vnd.fujitsu.oasys3")
    ∷ ("oas", "application/vnd.fujitsu.oasys")
    ∷ ("obd", "application/x-msbinder")
    ∷ ("obj", "application/x-tgif")
    ∷ ("oda", "application/oda")
    ∷ ("odb", "application/vnd.oasis.opendocument.database")
    ∷ ("odc", "application/vnd.oasis.opendocument.chart")
    ∷ ("odf", "application/vnd.oasis.opendocument.formula")
    ∷ ("odft", "application/vnd.oasis.opendocument.formula-template")
    ∷ ("odg", "application/vnd.oasis.opendocument.graphics")
    ∷ ("odi", "application/vnd.oasis.opendocument.image")
    ∷ ("odm", "application/vnd.oasis.opendocument.text-master")
    ∷ ("odp", "application/vnd.oasis.opendocument.presentation")
    ∷ ("ods", "application/vnd.oasis.opendocument.spreadsheet")
    ∷ ("odt", "application/vnd.oasis.opendocument.text")
    ∷ ("oga", "audio/ogg")
    ∷ ("ogg", "audio/ogg")
    ∷ ("ogv", "video/ogg")
    ∷ ("ogx", "application/ogg")
    ∷ ("opf", "application/oebps-package+xml")
    ∷ ("opml", "text/x-opml")
    ∷ ("oprc", "application/vnd.palm")
    ∷ ("org", "application/vnd.lotus-organizer")
    ∷ ("osf", "application/vnd.yamaha.openscoreformat")
    ∷ ("otc", "application/vnd.oasis.opendocument.chart-template")
    ∷ ("otf", "font/otf")
    ∷ ("otg", "application/vnd.oasis.opendocument.graphics-template")
    ∷ ("oth", "application/vnd.oasis.opendocument.text-web")
    ∷ ("oti", "application/vnd.oasis.opendocument.image-template")
    ∷ ("otp", "application/vnd.oasis.opendocument.presentation-template")
    ∷ ("ots", "application/vnd.oasis.opendocument.spreadsheet-template")
    ∷ ("ott", "application/vnd.oasis.opendocument.text-template")
    ∷ ("ova", "application/x-virtualbox-ova")
    ∷ ("ovf", "application/x-virtualbox-ovf")
    ∷ ("oxps", "application/oxps")
    ∷ ("oxt", "application/vnd.openofficeorg.extension")
    ∷ ("p\0\0", "text/x-pascal")
    ∷ ("p10", "application/pkcs10")
    ∷ ("p12", "application/x-pkcs12")
    ∷ ("p7b", "application/x-pkcs7-certificates")
    ∷ ("p7c", "application/pkcs7-mime")
    ∷ ("p7m", "application/pkcs7-mime")
    ∷ ("p7r", "application/x-pkcs7-certreqresp")
    ∷ ("p7s", "application/pkcs7-signature")
    ∷ ("p8\0", "application/pkcs8")
    ∷ ("pac", "application/x-ns-proxy-autoconfig")
    ∷ ("pas", "text/x-pascal")
    ∷ ("paw", "application/vnd.pawaafile")
    ∷ ("pbd", "application/vnd.powerbuilder6")
    ∷ ("pbm", "image/x-portable-bitmap")
    ∷ ("pcap", "application/vnd.tcpdump.pcap")
    ∷ ("pcf", "application/x-font-pcf")
    ∷ ("pcl", "application/vnd.hp-pcl")
    ∷ ("pct", "image/x-pict")
    ∷ ("pcx", "image/x-pcx")
    ∷ ("pdb", "application/vnd.palm")
    ∷ ("pde", "text/x-processing")
    ∷ ("pdf", "application/pdf")
    ∷ ("pem", "application/x-x509-ca-cert")
    ∷ ("pfa", "application/x-font-type1")
    ∷ ("pfb", "application/x-font-type1")
    ∷ ("pfm", "application/x-font-type1")
    ∷ ("pfr", "application/font-tdpfr")
    ∷ ("pfx", "application/x-pkcs12")
    ∷ ("pgm", "image/x-portable-graymap")
    ∷ ("pgn", "application/x-chess-pgn")
    ∷ ("pgp", "application/pgp-encrypted")
    ∷ ("php", "application/x-httpd-php")
    ∷ ("pic", "image/x-pict")
    ∷ ("pkg", "application/octet-stream")
    ∷ ("pki", "application/pkixcmp")
    ∷ ("pl\0", "application/x-perl")
    ∷ ("plb", "application/vnd.3gpp.pic-bw-large")
    ∷ ("plc", "application/vnd.mobius.plc")
    ∷ ("plf", "application/vnd.pocketlearn")
    ∷ ("pls", "application/pls+xml")
    ∷ ("pm\0", "application/x-perl")
    ∷ ("pml", "application/vnd.ctc-posml")
    ∷ ("png", "image/png")
    ∷ ("pnm", "image/x-portable-anymap")
    ∷ ("pot", "application/vnd.ms-powerpoint")
    ∷ ("potm", "application/vnd.ms-powerpoint.template.macroenabled.12")
    ∷ ("potx", "application/vnd.openxmlformats-officedocument.presentationml.template")
    ∷ ("ppam", "application/vnd.ms-powerpoint.addin.macroenabled.12")
    ∷ ("ppd", "application/vnd.cups-ppd")
    ∷ ("ppm", "image/x-portable-pixmap")
    ∷ ("pps", "application/vnd.ms-powerpoint")
    ∷ ("ppsm", "application/vnd.ms-powerpoint.slideshow.macroenabled.12")
    ∷ ("ppsx", "application/vnd.openxmlformats-officedocument.presentationml.slideshow")
    ∷ ("ppt", "application/vnd.ms-powerpoint")
    ∷ ("pptm", "application/vnd.ms-powerpoint.presentation.macroenabled.12")
    ∷ ("pptx", "application/vnd.openxmlformats-officedocument.presentationml.presentation")
    ∷ ("pqa", "application/vnd.palm")
    ∷ ("prc", "application/x-mobipocket-ebook")
    ∷ ("pre", "application/vnd.lotus-freelance")
    ∷ ("prf", "application/pics-rules")
    ∷ ("ps\0", "application/postscript")
    ∷ ("psb", "application/vnd.3gpp.pic-bw-small")
    ∷ ("psd", "image/vnd.adobe.photoshop")
    ∷ ("psf", "application/x-font-linux-psf")
    ∷ ("ptid", "application/vnd.pvi.ptid1")
    ∷ ("pub", "application/x-mspublisher")
    ∷ ("pvb", "application/vnd.3gpp.pic-bw-var")
    ∷ ("pwn", "application/vnd.3m.post-it-notes")
    ∷ ("pya", "audio/vnd.ms-playready.media.pya")
    ∷ ("pyv", "video/vnd.ms-playready.media.pyv")
    ∷ ("qam", "application/vnd.epson.quickanime")
    ∷ ("qbo", "application/vnd.intu.qbo")
    ∷ ("qfx", "application/vnd.intu.qfx")
    ∷ ("qps", "application/vnd.publishare-delta-tree")
    ∷ ("qt\0", "video/quicktime")
    ∷ ("qwd", "application/vnd.quark.quarkxpress")
    ∷ ("qwt", "application/vnd.quark.quarkxpress")
    ∷ ("qxb", "application/vnd.quark.quarkxpress")
    ∷ ("qxd", "application/vnd.quark.quarkxpress")
    ∷ ("qxl", "application/vnd.quark.quarkxpress")
    ∷ ("qxt", "application/vnd.quark.quarkxpress")
    ∷ []
