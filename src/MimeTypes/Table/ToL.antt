-- ===== src/MimeTypes/Table/ToL.antt =====
-- libs/static_files/src/static_files_types.inl: the rows from h\0\0 to lzh.
use Prim.Native.String.{String}
use mathlib.Core.List.{List, [], ◌∷◌}

unfoldable pub types_to_l : List (String × String)
types_to_l =
    ("h\0\0", "text/x-c")
    ∷ ("h261", "video/h261")
    ∷ ("h263", "video/h263")
    ∷ ("h264", "video/h264")
    ∷ ("hal", "application/vnd.hal+xml")
    ∷ ("hbci", "application/vnd.hbci")
    ∷ ("hbs", "text/x-handlebars-template")
    ∷ ("hdd", "application/x-virtualbox-hdd")
    ∷ ("hdf", "application/x-hdf")
    ∷ ("hh\0", "text/x-c")
    ∷ ("hlp", "application/winhlp")
    ∷ ("hpgl", "application/vnd.hp-hpgl")
    ∷ ("hpid", "application/vnd.hp-hpid")
    ∷ ("hps", "application/vnd.hp-hps")
    ∷ ("hqx", "application/mac-binhex40")
    ∷ ("htc", "text/x-component")
    ∷ ("htke", "application/vnd.kenameaapp")
    ∷ ("htm", "text/html")
    ∷ ("html", "text/html")
    ∷ ("hvd", "application/vnd.yamaha.hv-dic")
    ∷ ("hvp", "application/vnd.yamaha.hv-voice")
    ∷ ("hvs", "application/vnd.yamaha.hv-script")
    ∷ ("i2g", "application/vnd.intergeo")
    ∷ ("icc", "application/vnd.iccprofile")
    ∷ ("ice", "x-conference/x-cooltalk")
    ∷ ("icm", "application/vnd.iccprofile")
    ∷ ("ico", "image/x-icon")
    ∷ ("ics", "text/calendar")
    ∷ ("ief", "image/ief")
    ∷ ("ifb", "text/calendar")
    ∷ ("ifm", "application/vnd.shana.informed.formdata")
    ∷ ("iges", "model/iges")
    ∷ ("igl", "application/vnd.igloader")
    ∷ ("igm", "application/vnd.insors.igm")
    ∷ ("igs", "model/iges")
    ∷ ("igx", "application/vnd.micrografx.igx")
    ∷ ("iif", "application/vnd.shana.informed.interchange")
    ∷ ("img", "application/octet-stream")
    ∷ ("imp", "application/vnd.accpac.simply.imp")
    ∷ ("ims", "application/vnd.ms-ims")
    ∷ ("in\0", "text/plain")
    ∷ ("ini", "text/plain")
    ∷ ("ink", "application/inkml+xml")
    ∷ ("iota", "application/vnd.astraea-software.iota")
    ∷ ("ipk", "application/vnd.shana.informed.package")
    ∷ ("irm", "application/vnd.ibm.rights-management")
    ∷ ("irp", "application/vnd.irepository.package+xml")
    ∷ ("iso", "application/octet-stream")
    ∷ ("itp", "application/vnd.shana.informed.formtemplate")
    ∷ ("ivp", "application/vnd.immervision-ivp")
    ∷ ("ivu", "application/vnd.immervision-ivu")
    ∷ ("jad", "text/vnd.sun.j2me.app-descriptor")
    ∷ ("jade", "text/jade")
    ∷ ("jam", "application/vnd.jam")
    ∷ ("jar", "application/java-archive")
    ∷ ("java", "text/x-java-source")
    ∷ ("jisp", "application/vnd.jisp")
    ∷ ("jlt", "application/vnd.hp-jlyt")
    ∷ ("jng", "image/x-jng")
    ∷ ("jnlp", "application/x-java-jnlp-file")
    ∷ ("joda", "application/vnd.joost.joda-archive")
    ∷ ("jp2", "image/jp2")
    ∷ ("jpe", "image/jpeg")
    ∷ ("jpeg", "image/jpeg")
    ∷ ("jpf", "image/jpx")
    ∷ ("jpg", "image/jpeg")
    ∷ ("jpg2", "image/jp2")
    ∷ ("jpgm", "video/jpm")
    ∷ ("jpgv", "video/jpeg")
    ∷ ("jpm", "image/jpm")
    ∷ ("jpx", "image/jpx")
    ∷ ("js\0", "application/javascript")
    ∷ ("json", "application/json")
    ∷ ("jsx", "text/jsx")
    ∷ ("kar", "audio/midi")
    ∷ ("kfo", "application/vnd.kde.kformula")
    ∷ ("kia", "application/vnd.kidspiration")
    ∷ ("kml", "application/vnd.google-earth.kml+xml")
    ∷ ("kmz", "application/vnd.google-earth.kmz")
    ∷ ("kne", "application/vnd.kinar")
    ∷ ("knp", "application/vnd.kinar")
    ∷ ("kon", "application/vnd.kde.kontour")
    ∷ ("kpr", "application/vnd.kde.kpresenter")
    ∷ ("kpt", "application/vnd.kde.kpresenter")
    ∷ ("kpxx", "application/vnd.ds-keypoint")
    ∷ ("ksp", "application/vnd.kde.kspread")
    ∷ ("ktr", "application/vnd.kahootz")
    ∷ ("ktx", "image/ktx")
    ∷ ("ktz", "application/vnd.kahootz")
    ∷ ("kwd", "application/vnd.kde.kword")
    ∷ ("kwt", "application/vnd.kde.kword")
    ∷ ("lbd", "application/vnd.llamagraphics.life-balance.desktop")
    ∷ ("lbe", "application/vnd.llamagraphics.life-balance.exchange+xml")
    ∷ ("les", "application/vnd.hhe.lesson-player")
    ∷ ("less", "text/less")
    ∷ ("lha", "application/x-lzh-compressed")
    ∷ ("list", "text/plain")
    ∷ ("lnk", "application/x-ms-shortcut")
    ∷ ("log", "text/plain")
    ∷ ("lrf", "application/octet-stream")
    ∷ ("lrm", "application/vnd.ms-lrm")
    ∷ ("ltf", "application/vnd.frogans.ltf")
    ∷ ("lua", "text/x-lua")
    ∷ ("luac", "application/x-lua-bytecode")
    ∷ ("lvp", "audio/vnd.lucent.voice")
    ∷ ("lwp", "application/vnd.lotus-wordpro")
    ∷ ("lzh", "application/x-lzh-compressed")
    ∷ []
