-- ===== src/MimeTypes/Table/ToS.antt =====
-- libs/static_files/src/static_files_types.inl: the rows from ra\0 to sxw.
use Prim.Native.String.{String}
use mathlib.Core.List.{List, [], ◌∷◌}

unfoldable pub types_to_s : List (String × String)
types_to_s =
    ("ra\0", "audio/x-pn-realaudio")
    ∷ ("ram", "audio/x-pn-realaudio")
    ∷ ("raml", "application/raml+yaml")
    ∷ ("rar", "application/x-rar-compressed")
    ∷ ("ras", "image/x-cmu-raster")
    ∷ ("rdf", "application/rdf+xml")
    ∷ ("rdz", "application/vnd.data-vision.rdz")
    ∷ ("rep", "application/vnd.businessobjects")
    ∷ ("res", "application/x-dtbresource+xml")
    ∷ ("rgb", "image/x-rgb")
    ∷ ("rif", "application/reginfo+xml")
    ∷ ("rip", "audio/vnd.rip")
    ∷ ("ris", "application/x-research-info-systems")
    ∷ ("rl\0", "application/resource-lists+xml")
    ∷ ("rlc", "image/vnd.fujixerox.edmics-rlc")
    ∷ ("rld", "application/resource-lists-diff+xml")
    ∷ ("rm\0", "application/vnd.rn-realmedia")
    ∷ ("rmi", "audio/midi")
    ∷ ("rmp", "audio/x-pn-realaudio-plugin")
    ∷ ("rms", "application/vnd.jcp.javame.midlet-rms")
    ∷ ("rmvb", "application/vnd.rn-realmedia-vbr")
    ∷ ("rnc", "application/relax-ng-compact-syntax")
    ∷ ("rng", "application/xml")
    ∷ ("roa", "application/rpki-roa")
    ∷ ("roff", "text/troff")
    ∷ ("rp9", "application/vnd.cloanto.rp9")
    ∷ ("rpm", "application/x-redhat-package-manager")
    ∷ ("rpss", "application/vnd.nokia.radio-presets")
    ∷ ("rpst", "application/vnd.nokia.radio-preset")
    ∷ ("rq\0", "application/sparql-query")
    ∷ ("rs\0", "application/rls-services+xml")
    ∷ ("rsd", "application/rsd+xml")
    ∷ ("rss", "application/rss+xml")
    ∷ ("rtf", "application/rtf")
    ∷ ("rtx", "text/richtext")
    ∷ ("run", "application/x-makeself")
    ∷ ("s\0\0", "text/x-asm")
    ∷ ("s3m", "audio/s3m")
    ∷ ("saf", "application/vnd.yamaha.smaf-audio")
    ∷ ("sass", "text/x-sass")
    ∷ ("sbml", "application/sbml+xml")
    ∷ ("sc\0", "application/vnd.ibm.secure-container")
    ∷ ("scd", "application/x-msschedule")
    ∷ ("scm", "application/vnd.lotus-screencam")
    ∷ ("scq", "application/scvp-cv-request")
    ∷ ("scs", "application/scvp-cv-response")
    ∷ ("scss", "text/x-scss")
    ∷ ("sda", "application/vnd.stardivision.draw")
    ∷ ("sdc", "application/vnd.stardivision.calc")
    ∷ ("sdd", "application/vnd.stardivision.impress")
    ∷ ("sdkd", "application/vnd.solent.sdkm+xml")
    ∷ ("sdkm", "application/vnd.solent.sdkm+xml")
    ∷ ("sdp", "application/sdp")
    ∷ ("sdw", "application/vnd.stardivision.writer")
    ∷ ("sea", "application/x-sea")
    ∷ ("see", "application/vnd.seemail")
    ∷ ("seed", "application/vnd.fdsn.seed")
    ∷ ("sema", "application/vnd.sema")
    ∷ ("semd", "application/vnd.semd")
    ∷ ("semf", "application/vnd.semf")
    ∷ ("ser", "application/java-serialized-object")
    ∷ ("sfs", "application/vnd.spotfire.sfs")
    ∷ ("sfv", "text/x-sfv")
    ∷ ("sgi", "image/sgi")
    ∷ ("sgl", "application/vnd.stardivision.writer-global")
    ∷ ("sgm", "text/sgml")
    ∷ ("sgml", "text/sgml")
    ∷ ("sh\0", "application/x-sh")
    ∷ ("shar", "application/x-shar")
    ∷ ("shf", "application/shf+xml")
    ∷ ("sid", "image/x-mrsid-image")
    ∷ ("sig", "application/pgp-signature")
    ∷ ("sil", "audio/silk")
    ∷ ("silo", "model/mesh")
    ∷ ("sis", "application/vnd.symbian.install")
    ∷ ("sisx", "application/vnd.symbian.install")
    ∷ ("sit", "application/x-stuffit")
    ∷ ("sitx", "application/x-stuffitx")
    ∷ ("skd", "application/vnd.koan")
    ∷ ("skm", "application/vnd.koan")
    ∷ ("skp", "application/vnd.koan")
    ∷ ("skt", "application/vnd.koan")
    ∷ ("sldm", "application/vnd.ms-powerpoint.slide.macroenabled.12")
    ∷ ("sldx", "application/vnd.openxmlformats-officedocument.presentationml.slide")
    ∷ ("slim", "text/slim")
    ∷ ("slm", "text/slim")
    ∷ ("slt", "application/vnd.epson.salt")
    ∷ ("sm\0", "application/vnd.stepmania.stepchart")
    ∷ ("smf", "application/vnd.stardivision.math")
    ∷ ("smi", "application/smil+xml")
    ∷ ("smil", "application/smil+xml")
    ∷ ("smv", "video/x-smv")
    ∷ ("snd", "audio/basic")
    ∷ ("snf", "application/x-font-snf")
    ∷ ("so\0", "application/octet-stream")
    ∷ ("spc", "application/x-pkcs7-certificates")
    ∷ ("spf", "application/vnd.yamaha.smaf-phrase")
    ∷ ("spl", "application/x-futuresplash")
    ∷ ("spot", "text/vnd.in3d.spot")
    ∷ ("spp", "application/scvp-vp-response")
    ∷ ("spq", "application/scvp-vp-request")
    ∷ ("spx", "audio/ogg")
    ∷ ("sql", "application/x-sql")
    ∷ ("src", "application/x-wais-source")
    ∷ ("srt", "application/x-subrip")
    ∷ ("sru", "application/sru+xml")
    ∷ ("srx", "application/sparql-results+xml")
    ∷ ("ssdl", "application/ssdl+xml")
    ∷ ("sse", "application/vnd.kodak-descriptor")
    ∷ ("ssf", "application/vnd.epson.ssf")
    ∷ ("ssml", "application/ssml+xml")
    ∷ ("st\0", "application/vnd.sailingtracker.track")
    ∷ ("stc", "application/vnd.sun.xml.calc.template")
    ∷ ("std", "application/vnd.sun.xml.draw.template")
    ∷ ("stf", "application/vnd.wt.stf")
    ∷ ("sti", "application/vnd.sun.xml.impress.template")
    ∷ ("stk", "application/hyperstudio")
    ∷ ("stl", "application/vnd.ms-pki.stl")
    ∷ ("str", "application/vnd.pg.format")
    ∷ ("stw", "application/vnd.sun.xml.writer.template")
    ∷ ("styl", "text/stylus")
    ∷ ("sub", "text/vnd.dvb.subtitle")
    ∷ ("sus", "application/vnd.sus-calendar")
    ∷ ("susp", "application/vnd.sus-calendar")
    ∷ ("svc", "application/vnd.dvb.service")
    ∷ ("svd", "application/vnd.svd")
    ∷ ("svg", "image/svg+xml")
    ∷ ("svgz", "image/svg+xml")
    ∷ ("swa", "application/x-director")
    ∷ ("swf", "application/x-shockwave-flash")
    ∷ ("swi", "application/vnd.aristanetworks.swi")
    ∷ ("sxc", "application/vnd.sun.xml.calc")
    ∷ ("sxd", "application/vnd.sun.xml.draw")
    ∷ ("sxg", "application/vnd.sun.xml.writer.global")
    ∷ ("sxi", "application/vnd.sun.xml.impress")
    ∷ ("sxm", "application/vnd.sun.xml.math")
    ∷ ("sxw", "application/vnd.sun.xml.writer")
    ∷ []
