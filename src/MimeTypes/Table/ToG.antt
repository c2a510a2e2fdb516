-- ===== src/MimeTypes/Table/ToG.antt =====
-- libs/static_files/src/static_files_types.inl: the rows from dae to gz\0.
use Prim.Native.String.{String}
use mathlib.Core.List.{List, [], ◌∷◌}

unfoldable pub types_to_g : List (String × String)
types_to_g =
    ("dae", "model/vnd.collada+xml")
    ∷ ("daf", "application/vnd.mobius.daf")
    ∷ ("dart", "application/vnd.dart")
    ∷ ("dbk", "application/docbook+xml")
    ∷ ("dcr", "application/x-director")
    ∷ ("dd2", "application/vnd.oma.dd2+xml")
    ∷ ("ddd", "application/vnd.fujixerox.ddd")
    ∷ ("deb", "application/octet-stream")
    ∷ ("def", "text/plain")
    ∷ ("der", "application/x-x509-ca-cert")
    ∷ ("dfac", "application/vnd.dreamfactory")
    ∷ ("dgc", "application/x-dgc-compressed")
    ∷ ("dic", "text/x-c")
    ∷ ("dir", "application/x-director")
    ∷ ("dis", "application/vnd.mobius.dis")
    ∷ ("dist", "application/octet-stream")
    ∷ ("djv", "image/vnd.djvu")
    ∷ ("djvu", "image/vnd.djvu")
    ∷ ("dll", "application/octet-stream")
    ∷ ("dmg", "application/octet-stream")
    ∷ ("dmp", "application/vnd.tcpdump.pcap")
    ∷ ("dms", "application/octet-stream")
    ∷ ("dna", "application/vnd.dna")
    ∷ ("doc", "application/msword")
    ∷ ("docm", "application/vnd.ms-word.document.macroenabled.12")
    ∷ ("docx", "application/vnd.openxmlformats-officedocument.wordprocessingml.document")
    ∷ ("dot", "application/msword")
    ∷ ("dotm", "application/vnd.ms-word.template.macroenabled.12")
    ∷ ("dotx", "application/vnd.openxmlformats-officedocument.wordprocessingml.template")
    ∷ ("dp\0", "application/vnd.osgi.dp")
    ∷ ("dpg", "application/vnd.dpgraph")
    ∷ ("dra", "audio/vnd.dra")
    ∷ ("dsc", "text/prs.lines.tag")
    ∷ ("dssc", "application/dssc+der")
    ∷ ("dtb", "application/x-dtbook+xml")
    ∷ ("dtd", "application/xml-dtd")
    ∷ ("dts", "audio/vnd.dts")
    ∷ ("dump", "application/octet-stream")
    ∷ ("dvb", "video/vnd.dvb.file")
    ∷ ("dvi", "application/x-dvi")
    ∷ ("dwf", "model/vnd.dwf")
    ∷ ("dwg", "image/vnd.dwg")
    ∷ ("dxf", "image/vnd.dxf")
    ∷ ("dxp", "application/vnd.spotfire.dxp")
    ∷ ("dxr", "application/x-director")
    ∷ ("ear", "application/java-archive")
    ∷ ("ecma", "application/ecmascript")
    ∷ ("edm", "application/vnd.novadigm.edm")
    ∷ ("edx", "application/vnd.novadigm.edx")
    ∷ ("efif", "application/vnd.picsel")
    ∷ ("ei6", "application/vnd.pg.osasli")
    ∷ ("elc", "application/octet-stream")
    ∷ ("emf", "application/x-msmetafile")
    ∷ ("eml", "message/rfc822")
    ∷ ("emma", "application/emma+xml")
    ∷ ("emz", "application/x-msmetafile")
    ∷ ("eol", "audio/vnd.digital-winds")
    ∷ ("eot", "application/vnd.ms-fontobject")
    ∷ ("eps", "application/postscript")
    ∷ ("epub", "application/epub+zip")
    ∷ ("es3", "application/vnd.eszigno3+xml")
    ∷ ("esa", "application/vnd.osgi.subsystem")
    ∷ ("esf", "application/vnd.epson.esf")
    ∷ ("et3", "application/vnd.eszigno3+xml")
    ∷ ("etx", "text/x-setext")
    ∷ ("eva", "application/x-eva")
    ∷ ("evy", "application/x-envoy")
    ∷ ("exe", "application/octet-stream")
    ∷ ("exi", "application/exi")
    ∷ ("ext", "application/vnd.novadigm.ext")
    ∷ ("ez\0", "application/andrew-inset")
    ∷ ("ez2", "application/vnd.ezpix-album")
    ∷ ("ez3", "application/vnd.ezpix-package")
    ∷ ("f\0\0", "text/x-fortran")
    ∷ ("f4v", "video/x-f4v")
    ∷ ("f77", "text/x-fortran")
    ∷ ("f90", "text/x-fortran")
    ∷ ("fbs", "image/vnd.fastbidsheet")
    ∷ ("fcdt", "application/vnd.adobe.formscentral.fcdt")
    ∷ ("fcs", "application/vnd.isac.fcs")
    ∷ ("fdf", "application/vnd.fdf")
    ∷ ("fg5", "application/vnd.fujitsu.oasysgp")
    ∷ ("fgd", "application/x-director")
    ∷ ("fh\0", "image/x-freehand")
    ∷ ("fh4", "image/x-freehand")
    ∷ ("fh5", "image/x-freehand")
    ∷ ("fh7", "image/x-freehand")
    ∷ ("fhc", "image/x-freehand")
    ∷ ("fig", "application/x-xfig")
    ∷ ("flac", "audio/x-flac")
    ∷ ("fli", "video/x-fli")
    ∷ ("flo", "application/vnd.micrografx.flo")
    ∷ ("flv", "video/x-flv")
    ∷ ("flw", "application/vnd.kde.kivio")
    ∷ ("flx", "text/vnd.fmi.flexstor")
    ∷ ("fly", "text/vnd.fly")
    ∷ ("fm\0", "application/vnd.framemaker")
    ∷ ("fnc", "application/vnd.frogans.fnc")
    ∷ ("for", "text/x-fortran")
    ∷ ("fpx", "image/vnd.fpx")
    ∷ ("fsc", "application/vnd.fsc.weblaunch")
    ∷ ("fst", "image/vnd.fst")
    ∷ ("ftc", "application/vnd.fluxtime.clip")
    ∷ ("fti", "application/vnd.anser-web-funds-transfer-initiation")
    ∷ ("fvt", "video/vnd.fvt")
    ∷ ("fxp", "application/vnd.adobe.fxp")
    ∷ ("fxpl", "application/vnd.adobe.fxp")
    ∷ ("fzs", "application/vnd.fuzzysheet")
    ∷ ("g2w", "application/vnd.geoplan")
    ∷ ("g3\0", "image/g3fax")
    ∷ ("g3w", "application/vnd.geospace")
    ∷ ("gac", "application/vnd.groove-account")
    ∷ ("gam", "application/x-tads")
    ∷ ("gbr", "application/rpki-ghostbusters")
    ∷ ("gca", "application/x-gca-compressed")
    ∷ ("gdl", "model/vnd.gdl")
    ∷ ("gdoc", "application/vnd.google-apps.document")
    ∷ ("geo", "application/vnd.dynageo")
    ∷ ("gex", "application/vnd.geometry-explorer")
    ∷ ("ggb", "application/vnd.geogebra.file")
    ∷ ("ggt", "application/vnd.geogebra.tool")
    ∷ ("ghf", "application/vnd.groove-help")
    ∷ ("gif", "image/gif")
    ∷ ("gim", "application/vnd.groove-identity-message")
    ∷ ("glb", "model/gltf-binary")
    ∷ ("gltf", "model/gltf+json")
    ∷ ("gml", "application/gml+xml")
    ∷ ("gmx", "application/vnd.gmx")
    ∷ ("gph", "application/vnd.flographit")
    ∷ ("gpx", "application/gpx+xml")
    ∷ ("gqf", "application/vnd.grafeq")
    ∷ ("gqs", "application/vnd.grafeq")
    ∷ ("gram", "application/srgs")
    ∷ ("gre", "application/vnd.geometry-explorer")
    ∷ ("grv", "application/vnd.groove-injector")
    ∷ ("gsf", "application/x-font-ghostscript")
    ∷ ("gtar", "application/x-gtar")
    ∷ ("gtm", "application/vnd.groove-tool-message")
    ∷ ("gtw", "model/vnd.gtw")
    ∷ ("gv\0", "text/vnd.graphviz")
    ∷ ("gxf", "application/gxf")
    ∷ ("gxt", "application/vnd.geonext")
    ∷ ("gz\0", "application/gzip")
    ∷ []
